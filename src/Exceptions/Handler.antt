-- ===== src/Exceptions/Handler.antt =====
-- internal/exceptions/handler.go: policy, rate limit and audit log behind one entry point.
-- What `Check` reads from outside (the clock, the working directory, the answer of the file system
-- to the write of an audit entry) is the argument `Surroundings`. The rotation of the audit file is
-- left out: an entry that is written is appended to the list of entries.
pub mod Laws
pub mod Limits
pub mod Invocations
use klaudiush.Prelude.{
  ℕ, Bool, true, false, not, ◌&&◌, Option, none, some, List, [], ◌∷◌, ◌++◌, if◌then◌else◌,
}
use klaudiush.Prelude.Bytes.{Str, codes, is_empty}
use klaudiush.Prelude.Maps.{get_or, and_then}
use klaudiush.Prelude.Unicode.{Unicode}
use klaudiush.Hook.{Context, get_command}
use klaudiush.Exceptions.Config.{
  ExceptionsConfig, ExceptionAuditConfig, is_enabled, is_audit_enabled,
}
use klaudiush.Exceptions.RateLimit.{
  Time, Zone, RateLimiter, StateFile, CheckResult, new_rate_limiter, check, record_usage, load,
  save,
}
use klaudiush.Exceptions.Types.{AuditEntry, ExceptionResult}
use klaudiush.Exceptions.Engine.{Engine, EvaluateRequest, new_engine, evaluate}
use klaudiush.Exceptions.Token.Source.{ShellResult}

pub record Handler : Type 0 where
  pub engine : Engine
  pub rate_limiter : RateLimiter
  pub audit_config : Option ExceptionAuditConfig
  pub audit_log : List AuditEntry
  pub config : Option ExceptionsConfig

pub record CheckRequest : Type 0 where
  pub hook_context : Option Context
  pub validator_name : Str
  pub error_code : Str
  pub error_message : Str

pub record CheckResponse : Type 0 where
  pub bypassed : Bool
  pub reason : Str
  pub error_code : Str
  pub token_reason : Str
  pub rate_limit_info : Option CheckResult

-- The readings of the clock in the order of the calls, `os.Getwd`, and the error of the audit write.
pub record Surroundings : Type 0 where
  pub evaluated_at : Time
  pub checked_at : Time
  pub recorded_at : Time
  pub stamped_at : Time
  pub working_dir : Option Str
  pub write_error : Option Str

abbrev refused : Str → Str → Option CheckResult → CheckResponse
refused reason code info = record {
  bypassed = false;
  reason = reason;
  error_code = code;
  token_reason = [];
  rate_limit_info = info;
}

-- `AuditLogger.Log`, and `logAuditEntry`, which passes over its error.
unfoldable pub log :
    Option ExceptionAuditConfig → Option Str → Option AuditEntry → List AuditEntry → List AuditEntry
log config error none entries = entries
log none none (some entry) entries = entries ++ entry ∷ []
log none (some e) (some entry) entries = entries
log (some c) error (some entry) entries =
    if not (is_audit_enabled (some c))
    then entries
    else elim error [ none ↦ entries ++ entry ∷ [] | some e ↦ entries ]

unfoldable pub log_audit_entry : Surroundings → Option AuditEntry → Handler → Handler
log_audit_entry env entry h = record h {
  audit_log = log h.audit_config env.write_error entry h.audit_log;
}

unfoldable pub command_of : Option Context → Str
command_of none = []
command_of (some c) = get_command c

abbrev repository_of : Option Context → Option Str → Str
repository_of none wd = []
repository_of (some c) wd = get_or wd []

unfoldable pub to_evaluate_request : Surroundings → CheckRequest → EvaluateRequest
to_evaluate_request env req = record {
  command = command_of req.hook_context;
  validator_name = req.validator_name;
  error_code = req.error_code;
  working_dir = get_or env.working_dir [];
  repository = repository_of req.hook_context env.working_dir;
}

unfoldable pub handle_policy_denial :
    Surroundings → CheckRequest → ExceptionResult → Handler → CheckResponse × Handler
handle_policy_denial env req result h =
    (refused result.reason req.error_code none, log_audit_entry env result.audit_entry h)

-- The entry is changed in place before it is logged.
unfoldable pub handle_rate_limit_denial :
    Surroundings → AuditEntry → CheckResult → Handler → CheckResponse × Handler
handle_rate_limit_denial env entry limit h = (
  refused limit.reason entry.error_code (some limit),
  log_audit_entry env (some (record entry { allowed = false; denial_reason = limit.reason })) h,
)

module _ (zone : Zone) where
  unfoldable pub handle_allowed_exception :
      Surroundings → AuditEntry → CheckResult → Handler → CheckResponse × Handler
  handle_allowed_exception env entry limit h =
      let used = record_usage zone env.recorded_at env.stamped_at entry.error_code h.rate_limiter in
      (
        record {
          bypassed = true;
          reason = codes "exception allowed";
          error_code = entry.error_code;
          token_reason = entry.reason;
          rate_limit_info = some limit;
        },
        log_audit_entry env (some entry) (record h { rate_limiter = used }),
      )

  -- `Check` behind the policy: an allowed evaluation carries an audit entry. Go would fault at an
  -- allowed result with none, which `none` stands for.
  unfoldable pub check_rate :
      Surroundings → Option AuditEntry → Handler → Option (CheckResponse × Handler)
  check_rate env none h = none
  check_rate env (some entry) h =
      let (limit, limiter) = check zone env.checked_at entry.error_code h.rate_limiter in
      let h' = record h { rate_limiter = limiter } in
      if not limit.allowed
      then some (handle_rate_limit_denial env entry limit h')
      else some (handle_allowed_exception env entry limit h')

  -- `NewHandler` for a configuration; the shell parser is the engine's.
  unfoldable pub new_handler : Option ExceptionsConfig → (Str → ShellResult) → Time → Handler
  unfolding new_rate_limiter
  new_handler config parse_shell now = record {
    engine = new_engine config parse_shell;
    rate_limiter = new_rate_limiter zone (and_then config (λ c. c.rate_limit)) config now;
    audit_config = and_then config (λ c. c.audit);
    audit_log = [];
    config = config;
  }

  -- `LoadState`, whose error the program only logs.
  unfoldable pub load_state : Time → StateFile → Handler → Handler
  load_state now file h = record h { rate_limiter = (load zone now file h.rate_limiter).1 }

unfoldable pub save_state :
    (mkdir marshal write rename : Option Str) → Handler → StateFile → Option Str × StateFile
unfolding save
save_state mkdir marshal write rename h file = save mkdir marshal write rename h.rate_limiter file

module _ (u : Unicode) (zone : Zone) where
  unfoldable pub check_evaluated :
      Surroundings → CheckRequest → ExceptionResult → Handler → Option (CheckResponse × Handler)
  check_evaluated env req result h =
      if not result.allowed
      then some (handle_policy_denial env req result h)
      else check_rate zone env result.audit_entry h

  -- `Check`; `none` would be a fault of Go.
  unfoldable pub check_exception :
      Surroundings → Option CheckRequest → Handler → Option (CheckResponse × Handler)
  check_exception env none h = some (refused (codes "no request provided") [] none, h)
  check_exception env (some req) h =
      if not (is_enabled h.config)
      then some (refused (codes "exception system is disabled") [] none, h)
      else if is_empty (command_of req.hook_context)
      then some (refused (codes "no command to parse") [] none, h)
      else check_evaluated env req
          (evaluate u h.engine env.evaluated_at (some (to_evaluate_request env req))) h
