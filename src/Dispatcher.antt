-- ===== src/Dispatcher.antt =====
-- internal/dispatcher/dispatcher.go: every matching validator runs, and its failures pass the
-- overrides and the exception checks. pkg/parser is an argument here: the file writes of a shell
-- command. Logging is left out. What the i-th exception check reads from outside is `env i`.
pub mod Errors
pub mod Executor
pub mod Laws
pub mod Checking
pub mod Safety
pub mod Tests
use klaudiush.Prelude.{
  ℕ, suc, Bool, true, false, not, ◌&&◌, ◌||◌, Option, none, some, List, [], ◌∷◌, ◌++◌, any, filter,
  if◌then◌else◌,
}
use klaudiush.Prelude.Bytes.{Str, codes, is_empty, trim_suffix}
use klaudiush.Prelude.Unicode.{Unicode}
use klaudiush.Hook.{
  Context, EventType, CanonicalEvent, ToolType, ToolFamily, get_command, is_elicitation_event,
}
use klaudiush.Hook.Metadata.{canonical_string, tool_type_string}
use klaudiush.Hook.Names.{event_name, matches_event_name}
use klaudiush.Exceptions.Config.{is_enabled}
use klaudiush.Exceptions.RateLimit.{Zone}
use klaudiush.Exceptions.Handler.{
  Handler, CheckRequest, CheckResponse, Surroundings, check_exception,
}
use klaudiush.Overrides.{OverridesConfig, is_code_disabled}
use klaudiush.Validator.{Validator, Registration, find_validators, reference_code}
use klaudiush.Dispatcher.Errors.{ValidationError}

-- The exception checker's handler, if there is one, and the number of checks it has made.
pub record Checker : Type 0 where
  pub handler : Option Handler
  pub turn : ℕ

unfoldable pub extract_error_code : Str → Str
extract_error_code reference = reference_code (trim_suffix reference (codes "/"))

unfoldable pub format_bypassed_message : Str → CheckResponse → Str
format_bypassed_message message resp =
    if not (is_empty resp.token_reason)
    then message ++ (codes " [BYPASSED: " ++ (resp.token_reason ++ codes "]"))
    else message ++ codes " [BYPASSED]"

-- The warning that a bypassed error becomes.
unfoldable pub bypassed_error : ValidationError → CheckResponse → ValidationError
unfolding format_bypassed_message
bypassed_error verr resp = record verr {
  message = format_bypassed_message verr.message resp;
  should_block = false;
  bypassed = true;
  bypass_reason = resp.token_reason;
}

abbrev pub is_checking : Option Handler → Bool
is_checking none = false
is_checking (some h) = is_enabled h.config

abbrev pub is_before_tool : CanonicalEvent → Bool
is_before_tool CanonicalEvent.before_tool = true
is_before_tool _ = false

abbrev pub is_after_tool : CanonicalEvent → Bool
is_after_tool CanonicalEvent.after_tool = true
is_after_tool _ = false

abbrev pub is_pre_tool_use : EventType → Bool
is_pre_tool_use EventType.pre_tool_use = true
is_pre_tool_use _ = false

abbrev pub is_post_tool_use : EventType → Bool
is_post_tool_use EventType.post_tool_use = true
is_post_tool_use _ = false

abbrev pub is_bash : ToolType → Bool
is_bash ToolType.bash = true
is_bash _ = false

-- Whether the code of an error is switched off.
unfoldable pub is_suppressed :
    (Str → Option ℕ) → ℕ → Option OverridesConfig → ValidationError → Bool
is_suppressed parse_time now overrides verr =
    let code = reference_code verr.reference in
    not (is_empty code) && is_code_disabled parse_time now overrides code

unfoldable pub apply_overrides :
    (Str → Option ℕ) → ℕ → Option OverridesConfig → List ValidationError → List ValidationError
unfolding is_suppressed
apply_overrides parse_time now none errors = errors
apply_overrides parse_time now (some o) errors =
    filter (λ verr. not (is_suppressed parse_time now (some o) verr)) errors

abbrev pub request_of : Context → ValidationError → Str → CheckRequest
request_of hook verr code = record {
  hook_context = some hook;
  validator_name = verr.validator;
  error_code = code;
  error_message = verr.message;
}

-- The events on which exceptions count.
unfoldable pub accepts_exceptions : Unicode → Context → Bool
accepts_exceptions u hook =
    is_before_tool hook.event
    || is_elicitation_event hook
    || is_pre_tool_use hook.event_type
    || matches_event_name u hook (canonical_string CanonicalEvent.before_tool)

module _ (u : Unicode) (zone : Zone) (env : ℕ → Surroundings) where
  -- What the answer of the handler makes of the error; `none` is a fault of the check.
  abbrev answered :
      ValidationError
      → Checker
      → Option (CheckResponse × Handler)
      → Option ((ValidationError × Bool) × Checker)
  answered verr c none = none
  answered verr c (some (resp, h)) =
      let c' : Checker = record { handler = some h; turn = suc c.turn } in
      if not resp.bypassed
      then some ((verr, false), c')
      else some ((bypassed_error verr resp, true), c')

  -- `CheckException` of the default checker with this handler.
  abbrev check_with :
      Context
      → ValidationError
      → Checker
      → Option Handler
      → Option ((ValidationError × Bool) × Checker)
  check_with hook verr c none = some ((verr, false), c)
  check_with hook verr c (some h) =
      let code = extract_error_code verr.reference in
      if not (is_enabled h.config)
      then some ((verr, false), c)
      else if not verr.should_block
      then some ((verr, false), c)
      else if is_empty code
      then some ((verr, false), c)
      else answered verr c
          (check_exception u zone (env c.turn) (some (request_of hook verr code)) h)

  unfoldable pub check_error :
      Context → ValidationError → Checker → Option ((ValidationError × Bool) × Checker)
  unfolding bypassed_error extract_error_code
  check_error hook verr c = check_with hook verr c c.handler

  abbrev cons_error :
      ValidationError
      → Option (List ValidationError × Checker)
      → Option (List ValidationError × Checker)
  cons_error verr none = none
  cons_error verr (some (rest, c)) = some (verr ∷ rest, c)

  -- The loop of `applyExceptionChecking`.
  unfoldable pub check_errors :
      Context → List ValidationError → Checker → Option (List ValidationError × Checker)
  check_errors hook [] c = some ([], c)
  check_errors hook (verr ∷ errors) c = elim (check_error hook verr c) [
    | none ↦ none
    | some ((verr', bypassed), c') ↦ cons_error verr' (check_errors hook errors c')
  ]

  unfoldable pub apply_exception_checking :
      Context → List ValidationError → Checker → Option (List ValidationError × Checker)
  apply_exception_checking hook errors c =
      if not (is_checking c.handler)
      then some (errors, c)
      else if not (accepts_exceptions u hook)
      then some (errors, c)
      else check_errors hook errors c

-- `ShouldBlock`
unfoldable pub should_block : List ValidationError → Bool
should_block errors = any (λ verr. verr.should_block) errors

-- The shell hooks whose file writes are checked.
unfoldable pub checks_writes : Context → Bool
checks_writes hook =
    is_bash hook.tool_name
    && (is_before_tool hook.event
        || is_after_tool hook.event
        || is_pre_tool_use hook.event_type
        || is_post_tool_use hook.event_type)

-- What is fixed during a dispatch.
pub record Dispatcher : Type 0 where
  pub registry : List Registration
  pub execute : Context → List Validator → List ValidationError
  pub overrides : Option OverridesConfig

-- A file write that the parser found in a shell command.
pub record FileWrite : Type 0 where
  pub path : Str
  pub content : Str

-- The write that a shell command makes, as the hook of a write.
unfoldable pub synthetic_context : Context → FileWrite → Context
synthetic_context bash fw = record {
  provider = bash.provider;
  event = bash.event;
  raw_event_name = event_name bash;
  event_type = bash.event_type;
  raw_tool_name = tool_type_string ToolType.write;
  tool_family = ToolFamily.write;
  tool_name = ToolType.write;
  tool_input = record { command = []; file_path = fw.path; path = []; content = fw.content };
  working_dir = bash.working_dir;
  session_id = bash.session_id;
  affected_paths = [];
  mcp_server_name = none;
}

module _ (u : Unicode) (zone : Zone) (env : ℕ → Surroundings) (parse_time : Str → Option ℕ)
    (now : ℕ) (file_writes : Str → Option (List FileWrite)) (d : Dispatcher) where
  abbrev run_found : Context → List Validator → Checker → Option (List ValidationError × Checker)
  run_found hook [] c = some ([], c)
  run_found hook (v ∷ vs) c =
      apply_exception_checking u zone env hook
        (apply_overrides parse_time now d.overrides (d.execute hook (v ∷ vs))) c

  unfoldable pub run_validators : Context → Checker → Option (List ValidationError × Checker)
  run_validators hook c = run_found hook (find_validators hook d.registry) c

  abbrev append_errors :
      List ValidationError
      → Option (List ValidationError × Checker)
      → Option (List ValidationError × Checker)
  append_errors errors none = none
  append_errors errors (some (rest, c)) = some (errors ++ rest, c)

  -- The loop over the file writes.
  unfoldable pub validate_writes :
      Context → List FileWrite → Checker → Option (List ValidationError × Checker)
  validate_writes bash [] c = some ([], c)
  validate_writes bash (fw ∷ fws) c = elim (run_validators (synthetic_context bash fw) c) [
    | none ↦ none
    | some (errors, c') ↦ append_errors errors (validate_writes bash fws c')
  ]

  abbrev validate_parsed :
      Context → Option (List FileWrite) → Checker → Option (List ValidationError × Checker)
  validate_parsed bash none c = some ([], c)
  validate_parsed bash (some fws) c = validate_writes bash fws c

  unfoldable pub validate_bash_file_writes :
      Context → Checker → Option (List ValidationError × Checker)
  validate_bash_file_writes bash c = validate_parsed bash (file_writes (get_command bash)) c

  -- `Dispatch`: the errors, and the checker behind them; `none` would be a fault.
  unfoldable pub dispatch : Context → Checker → Option (List ValidationError × Checker)
  dispatch hook c = elim (run_validators hook c) [
    | none ↦ none
    | some (errors, c') ↦
        if checks_writes hook
        then append_errors errors (validate_bash_file_writes hook c')
        else some (errors, c')
  ]
