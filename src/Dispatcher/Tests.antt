-- ===== src/Dispatcher/Tests.antt =====
-- Runs of the dispatcher, and the instances of its theorems.
use mathlib.Core.List.{Perm}
use klaudiush.Prelude.{
  ℕ, ◌≡◌, refl, Bool, true, false, Option, none, some, List, [], ◌∷◌, ◌++◌, All,
}
use klaudiush.Prelude.Bytes.{Str, codes, after_last, trim_suffix}
use klaudiush.Prelude.Maps.{get_or}
use klaudiush.Prelude.Unicode.{ascii_only}
use klaudiush.Hook.{get_command}
use klaudiush.Exceptions.RateLimit.{truncate_to_local_day}
use klaudiush.Exceptions.Tests.{handler_code, zone, engine, context, surroundings, handler}
use klaudiush.Validator.{
  Validator, category_cpu, category_git, fail_with_ref, warn, find_validators, reference_code,
}
use klaudiush.Dispatcher.Errors.{ValidationError, to_validation_error}
use klaudiush.Dispatcher.Executor.{failure_of, execute_sequential, ParallelRun, finish, done, step}
use klaudiush.Dispatcher.Executor.Laws.{ParallelRun-execute_sequential}
use klaudiush.Dispatcher.{
  Checker, Dispatcher, FileWrite, apply_exception_checking, should_block, synthetic_context,
  checks_writes, dispatch, accepts_exceptions, apply_overrides, check_error, check_errors,
  run_validators, validate_bash_file_writes, validate_writes,
}
use klaudiush.Dispatcher.Laws.{AllChecked, Runs}
use klaudiush.Dispatcher.Checking.{apply_exception_checking-AllChecked}
use klaudiush.Dispatcher.Safety.{MayPass, reported, dispatch-MayPass}
use klaudiush.Exceptions.Config.{is_enabled}
use klaudiush.Exceptions.Handler.{check_exception}

-- Blocks every push.
abbrev push : Validator
push = record {
  name = codes "validate-push";
  category = category_git;
  validate = λ hook. fail_with_ref (λ ref. []) (codes "https://klaudiu.sh/e/GIT022") (codes "no");
}

-- Warns.
abbrev hint : Validator
hint = record { name = codes "hint"; category = category_cpu; validate = λ hook. warn (codes "hm") }

abbrev dispatcher : Dispatcher
dispatcher = record {
  registry =
      record { validator = push; predicate = λ hook. true }
      ∷ record { validator = hint; predicate = λ hook. true }
      ∷ [];
  execute = execute_sequential (λ i. false);
  overrides = none;
}

abbrev checker : Checker
checker = record { handler = some handler; turn = 0 }

abbrev no_times : Str → Option ℕ
no_times s = none

abbrev no_writes : Str → Option (List FileWrite)
no_writes s = some []

abbrev outcome : Option (List ValidationError × Checker)
outcome = dispatch ascii_only zone surroundings no_times 0 no_writes dispatcher context checker

abbrev blocks : Option (List ValidationError × Checker) → Option Bool
blocks none = none
blocks (some (errors, c)) = some (should_block errors)

-- The token in the command of `context` is for GIT022, so nothing blocks.
dispatch_test : blocks outcome ≡ some false
unfolding handler_code codes dispatch run_validators find_validators apply_exception_checking
    is_enabled accepts_exceptions check_errors apply_overrides execute_sequential failure_of
    fail_with_ref check_error to_validation_error reference_code after_last trim_suffix
    check_exception warn checks_writes validate_bash_file_writes validate_writes should_block
    truncate_to_local_day
dispatch_test = refl

dispatch-MayPass_example :
    (rs : List ValidationError) × (c' : Checker) × (outcome ≡ some (rs, c'))
    × (should_block rs ≡ false
        → All
            (MayPass ascii_only zone surroundings engine no_times 0 no_writes dispatcher context)
            (reported ascii_only zone surroundings engine no_times 0 no_writes dispatcher context
              (find_validators context dispatcher.registry))
          × (checks_writes context ≡ true
              → All
                  (λ fw.
                    let write = synthetic_context context fw in
                    All
                      (MayPass ascii_only zone surroundings engine no_times 0 no_writes dispatcher
                        write)
                      (reported ascii_only zone surroundings engine no_times 0 no_writes dispatcher
                        write
                        (find_validators write dispatcher.registry)))
                  (get_or (no_writes (get_command context)) [])))
dispatch-MayPass_example =
    dispatch-MayPass ascii_only zone surroundings engine no_times 0 no_writes dispatcher context
      checker refl

abbrev blocked : List ValidationError
blocked = execute_sequential (λ i. false) context (push ∷ hint ∷ [])

apply_exception_checking-AllChecked_example :
    (rs : List ValidationError) × (c : Checker) × (apply_exception_checking ascii_only zone
        surroundings context blocked checker
      ≡ some (rs, c))
    × AllChecked ascii_only zone surroundings engine context blocked rs
    × Runs ascii_only zone surroundings engine c.handler
apply_exception_checking-AllChecked_example =
    apply_exception_checking-AllChecked ascii_only zone surroundings engine context blocked checker
      refl

-- The hint finishes first.
abbrev late_push : List ValidationError
late_push = failure_of context hint ++ failure_of context push

late_push_run : ParallelRun context (push ∷ hint ∷ []) late_push
late_push_run =
    step (finish (push ∷ []) hint [] [])
      (step (finish [] push [] (failure_of context hint)) (done _))

ParallelRun-execute_sequential_example :
    Perm late_push (execute_sequential (λ i. false) context (push ∷ hint ∷ []))
ParallelRun-execute_sequential_example =
    ParallelRun-execute_sequential context (push ∷ hint ∷ []) late_push late_push_run
