-- ===== src/Exceptions/Tests.antt =====
-- The exception workflow at concrete inputs.
mod Tokens
mod Limits
use klaudiush.Prelude.{
  ℕ, ◌*◌, ◌/◌, ◌-◌, ltb, if◌then◌else◌, ◌≤◌, ◌≡◌, refl, ◌≢◌, true, false, none, some, [], ◌∷◌,
  arith, ◌+◌,
}
use klaudiush.Prelude.Bytes.{Str, codes, str_eq, has_prefix, split_at}
use klaudiush.Prelude.Bytes.Text.{trim_space}
use klaudiush.Prelude.Int.{ℤ, pos, ◌+ℤ◌, ◌-ℤ◌}
use klaudiush.Prelude.Unicode.{ascii_only}
use klaudiush.Hook.{Provider, EventType, ToolType, CanonicalEvent, ToolFamily, Context, get_command}
use klaudiush.Exceptions.Config.{
  ExceptionsConfig, ExceptionRateLimitConfig, is_enabled, is_require_explicit_policy,
  is_policy_enabled, is_exception_allowed, is_reason_required, get_policy, get_token_prefix,
  get_max_per_hour, get_max_per_day, is_rate_limit_enabled,
}
use klaudiush.Exceptions.RateLimit.{
  Time, Zone, IsForward, load, hour, day, truncate_to_local_day, truncate_to_hour, missing,
  new_rate_limiter, is_disabled, reset_if_expired, save, load, check, record_usage, usage, bump,
  check_limits, exceeded, get_global_max_per_hour, get_global_max_per_day, get_policy_limits,
}
use klaudiush.Exceptions.Types.{Token, comment, ExceptionRequest, AuditEntry}
use klaudiush.Exceptions.Policy.{match, first_refusal, policy_of, accept, match_token}
use klaudiush.Exceptions.Policy.Permits.{Permits}
use klaudiush.Exceptions.Token.{
  ok, parse_token, parse_token_from_comment, split_token, is_valid_error_code, reason_of,
  query_unescape,
}
use klaudiush.Exceptions.Token.Source.{ShellResult, parsed, parse}
use klaudiush.Exceptions.Engine.{
  Engine, new_engine, EvaluateRequest, evaluate, to_result, entry_of, to_exception_request,
}
use klaudiush.Exceptions.Engine.Laws.{Grants, evaluate-Grants}
use klaudiush.Exceptions.Handler.{
  Handler, CheckRequest, Surroundings, check_exception, to_evaluate_request, command_of,
  check_evaluated, check_rate, handle_allowed_exception, handle_rate_limit_denial, log_audit_entry,
}
use klaudiush.Exceptions.Handler.Laws.{Ends, check_exception-Ends}
use klaudiush.Exceptions.Handler.Invocations.{Invocation, invoke_all, invoke_all-IsWithinLimits}
use klaudiush.Exceptions.Handler.Limits.{Schedule, run, IsWithinLimits, run-IsWithinLimits}
use klaudiush.Prelude.Maps.{lookup}

-- An hour ahead of UTC, all year.
abbrev pub zone : Zone
zone t = pos hour

-- A shell parser that finds one statement with one comment in every command.
abbrev pub one_comment : Str → ShellResult
one_comment command = parsed (record {
  stmts = record { assigns = none; comments = codes " EXC:GIT022:Hot+fix" ∷ [] } ∷ [];
  last = [];
})

abbrev pub engine : Engine
engine = new_engine none one_comment

abbrev pub token : Token
token = record {
  prefix = codes "EXC";
  error_code = codes "GIT022";
  reason = codes "Hot fix";
  raw = codes "EXC:GIT022:Hot+fix";
}

-- All that a run of the parser unfolds.
unfoldable pub token_code : Unit {0}
unfolding parse_token trim_space codes split_token split_at str_eq is_valid_error_code reason_of
    query_unescape parse_token_from_comment has_prefix parse
token_code = tt

pub parse_token_test : parse_token (codes "EXC") (codes " EXC:GIT022:Hot+fix ") ≡ ok token
unfolding token_code
parse_token_test = refl

-- All that a run of the handler unfolds.
unfoldable pub handler_code : Unit {0}
unfolding token_code check_exception evaluate new_engine match first_refusal policy_of accept
    is_enabled is_require_explicit_policy is_policy_enabled is_exception_allowed is_reason_required
    get_policy to_result entry_of to_exception_request get_token_prefix to_evaluate_request
    command_of get_command check_evaluated check_rate check is_disabled check_limits exceeded
    get_global_max_per_hour get_global_max_per_day get_policy_limits get_max_per_hour
    get_max_per_day is_rate_limit_enabled usage lookup reset_if_expired truncate_to_hour
    new_rate_limiter handle_allowed_exception handle_rate_limit_denial record_usage bump match_token
    log_audit_entry
handler_code = tt

-- Exceptions for GIT022 need a reason of five characters.
abbrev config : ExceptionsConfig
config = record {
  enabled = none;
  policies =
      (
        codes "GIT022",
        some (record {
          enabled = none;
          allow_exception = none;
          require_reason = some true;
          min_reason_length = some (pos 5);
          valid_reasons = [];
          max_per_hour = some (pos 1);
          max_per_day = none;
          description = [];
        }),
      )
      ∷ [];
  rate_limit = none;
  audit = none;
  require_explicit_policy = some true;
  token_prefix = [];
}

abbrev request : ExceptionRequest
request = record {
  token = some token;
  source = comment;
  command = codes "git push";
  validator_name = codes "push";
  error_code = codes "GIT022";
  request_time = 0;
}

abbrev evaluate_request : EvaluateRequest
evaluate_request = record {
  command = codes "git push # EXC:GIT022:Hot+fix";
  validator_name = codes "push";
  error_code = codes "GIT022";
  working_dir = [];
  repository = [];
}

evaluate_test : (evaluate ascii_only engine 5 (some evaluate_request)).allowed ≡ true
unfolding handler_code
evaluate_test = refl

evaluate-Grants_example :
    (entry : AuditEntry) × ((evaluate ascii_only engine 5 (some evaluate_request)).audit_entry
      ≡ some entry)
    × Grants ascii_only engine evaluate_request entry
evaluate-Grants_example = evaluate-Grants ascii_only engine 5 evaluate_request evaluate_test

abbrev pub context : Context
context = record {
  provider = Provider.claude;
  event = CanonicalEvent.before_tool;
  raw_event_name = [];
  event_type = EventType.pre_tool_use;
  raw_tool_name = codes "Bash";
  tool_family = ToolFamily.shell;
  tool_name = ToolType.bash;
  tool_input = record {
    command = codes "git push # EXC:GIT022:Hot+fix";
    file_path = [];
    path = [];
    content = [];
  };
  working_dir = [];
  session_id = [];
  affected_paths = [];
  mcp_server_name = none;
}

abbrev pub check_request : CheckRequest
check_request = record {
  hook_context = some context;
  validator_name = codes "push";
  error_code = codes "GIT022";
  error_message = [];
}

abbrev pub surroundings : Time → Surroundings
surroundings t = record {
  evaluated_at = t;
  checked_at = t;
  recorded_at = t + 1;
  stamped_at = t + 1;
  working_dir = none;
  write_error = none;
}

-- One exception an hour.
abbrev pub rate_config : ExceptionRateLimitConfig
rate_config = record {
  enabled = none;
  max_per_hour = some (pos 1);
  max_per_day = none;
  state_file = [];
}

abbrev pub handler : Handler
handler = record {
  engine = engine;
  rate_limiter = new_rate_limiter zone (some rate_config) none 0;
  audit_config = none;
  audit_log = [];
  config = none;
}

check_exception-Ends_example :
    Ends ascii_only zone
      (surroundings 5)
      check_request
      handler
      (check_exception ascii_only zone (surroundings 5) (some check_request) handler)
check_exception-Ends_example =
    check_exception-Ends ascii_only zone (surroundings 5) check_request handler
