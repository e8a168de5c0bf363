-- ===== src/Lib.antt =====
-- klaudiush: a hook for coding agents that validates what an agent is about to do and blocks, warns
-- or lets pass. This library models the decisions of the program.
--
-- The parts, from the outside in.
--   Dispatcher    internal/dispatcher. For a hook, the validators that the registry selects run, one
--                 after another or at once; their failures lose the codes that the overrides switch
--                 off; a blocking error with an exception token becomes a warning. The file writes of
--                 a shell command go through the same steps as writes of their own. `Dispatch` is
--                 `dispatch`, with the handler of the exceptions as explicit state (`Checker`).
--                 Dispatcher/Executor has both executors; a run of the parallel one is a sequence of
--                 steps in which goroutines finish in any order.
--   Validator     internal/validator: results, references, registry (`find_validators`).
--   Overrides     pkg/config/overrides.go: codes switched off (`is_code_disabled`).
--   Exceptions    internal/exceptions and pkg/config/exceptions.go. Handler (`check_exception` is
--                 `Check`) asks Engine (`evaluate`), which finds a token in the command (Token,
--                 Token/Source) and asks Policy (`match`), and then RateLimit (`check`,
--                 `record_usage`, `load`, `save`). Handler/Limits runs any sequence of checks,
--                 and Handler/Invocations the program itself, which keeps the state in a file.
--   Rules         internal/rules. Pattern compiles globs and regular expressions, Matcher/Build the
--                 conditions of a rule (`build_matcher`), Registry keeps the rules sorted (`add`,
--                 `remove`, `merge`), Evaluator finds the rule that decides (`evaluate_rules`), Engine
--                 holds both, and Adapter gives a validator the verdict (`check_rules`).
--   Patterns      internal/patterns. Which failures follow which: the store (`record_sequence`,
--                 `trim_patterns`, Merge, Files), Recorder (`observe`), Advisor (`advise`), Seeds and the
--                 settings of pkg/config/patterns.go (Config).
--   HookSession   internal/hooksession. The findings of each session in a state file: Findings has
--                 their identity and counts, Store the methods (`start`, `append`, `combined_errors`,
--                 `clear`), and Reachable the files that any calls leave.
--   Backup        internal/backup. Snapshots of the configuration: the index (snapshot.go), Storage,
--                 Manager (`create_backup`), Restore, Retention (the policies) and Pruning
--                 (`apply_retention`). Consistency has what the index and the files have in common,
--                 Stored, Recovery and Verified the way back, and Sizes what the size policy keeps.
--   CommandParser pkg/parser: what git commands (Git, with its queries in Flags) and `gh pr merge` (Gh)
--                 are given as arguments, and the paths that must not be written (Files).
--   HookResponse  internal/hookresponse: the response that a client gets for the errors of the
--                 Dispatcher (`build_for_context`), with its texts (Text, Wording). Denials has when it
--                 stops the client.
--   Hook          pkg/hook: the context of a hook, names of events and tools.
--   Prelude       strings as bytes, integers, maps, named lists, sorting, results.
--
-- How the code is read. A method on a shared structure is a function that takes and returns its state;
-- a mutex makes each method one step. A Go string is a list of bytes. An int is an integer without a
-- bound: counters grow by one for each exception, and priorities are only compared. A nil pointer is
-- `none`. Where the code would follow a nil pointer a function returns an `Option` whose `none` is
-- that fault. The clock, file system errors and the working directory are arguments (`Surroundings`).
-- Every modelled loop of the code is over a list or a tree, so its recursion is structural. Only
-- `trim_space` and `itoa`, of Go's standard library, run on fuel: the length of the text, of which
-- each round takes a byte at least, and one more than the number, of which each round takes a digit.
--
-- What is an argument: the case mapping of Unicode (its laws for ASCII text are fields of `Unicode`),
-- the offsets of the local time zone (`Zone`), the shell parser mvdan.cc/sh (`ParserConfig`), the file
-- writes that pkg/parser finds, doublestar and regexp (`Engines`), time.Parse, the validators' own
-- checks, and the table of suggestions; for the stores on disk, what the operating system refuses
-- (`Faults`, or the causes themselves) and the clock's readings; the order in which a range visits a
-- map; SHA-256; which runes are printable.
--
-- What is not modelled: loggers, the wording of the exceptions, the audit files, reading configuration,
-- the walk over shell scripts in pkg/parser, the validators of git, files and secrets, plugins, crash
-- dumps, updates and the command line.
pub mod Prelude
pub mod Hook
pub mod Exceptions
pub mod Rules
pub mod Overrides
pub mod Validator
pub mod Dispatcher
pub mod Patterns
pub mod HookSession
pub mod Backup
pub mod CommandParser
pub mod HookResponse
