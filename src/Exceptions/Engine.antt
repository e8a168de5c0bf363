-- ===== src/Exceptions/Engine.antt =====
-- internal/exceptions/engine.go: a command's token is parsed, compared with the expected code and
-- judged by the policy.
pub mod Laws
use klaudiush.Prelude.{
  Bool, true, false, not, ◌&&◌, Option, none, some, List, [], ◌∷◌, ◌++◌, leb, length, take,
  if◌then◌else◌,
}
use klaudiush.Prelude.Bytes.{Str, codes, is_empty, str_eq}
use klaudiush.Prelude.Unicode.{Unicode}
use klaudiush.Exceptions.Config.{ExceptionsConfig, is_enabled, get_token_prefix}
use klaudiush.Exceptions.RateLimit.{Time}
use klaudiush.Exceptions.Types.{
  Token, TokenSource, source_string, ExceptionRequest, AuditEntry, ExceptionResult, PolicyDecision,
}
use klaudiush.Exceptions.Policy.{match}
use klaudiush.Exceptions.Token.{
  TokenError, empty_command, parse_failed, invalid_token, token_not_found, invalid_error_code,
  Parsed, ok, err,
}
use klaudiush.Exceptions.Token.Source.{ShellResult, ParserConfig, parse}

-- `matcher` is the configuration of the policy matcher.
pub record Engine : Type 0 where
  pub parser : ParserConfig
  pub matcher : Option ExceptionsConfig
  pub config : Option ExceptionsConfig

-- `NewEngine` with no options.
unfoldable pub new_engine : Option ExceptionsConfig → (Str → ShellResult) → Engine
new_engine config parse_shell = record {
  parser = record {
    token_prefix = get_token_prefix config;
    env_var_name = codes "KLACK";
    parse_shell = parse_shell;
  };
  matcher = config;
  config = config;
}

pub record EvaluateRequest : Type 0 where
  pub command : Str
  pub validator_name : Str
  pub error_code : Str
  pub working_dir : Str
  pub repository : Str

unfoldable pub error_text : TokenError → Str
error_text empty_command = codes "empty command"
error_text (parse_failed message) = message ++ codes ": failed to parse command"
error_text invalid_token = codes "invalid exception token format"
error_text token_not_found = codes "no exception token found"
error_text invalid_error_code = codes "invalid error code"

unfoldable pub truncate_command : Str → Str
truncate_command cmd = if leb (length cmd) 200 then cmd else take 200 cmd ++ codes "..."

abbrev pub denied : Str → ExceptionResult
denied reason = record { allowed = false; reason = reason; audit_entry = none }

-- The code that the token must have; an empty one asks for nothing.
abbrev pub code_mismatch : (expected found : Str) → Bool
code_mismatch expected found = not (is_empty expected) && not (str_eq found expected)

unfoldable pub to_exception_request :
    Time → EvaluateRequest → Token × TokenSource → ExceptionRequest
to_exception_request now req (token, source) = record {
  token = some token;
  source = source;
  command = req.command;
  validator_name = req.validator_name;
  error_code = token.error_code;
  request_time = now;
}

unfoldable pub entry_of : Time → EvaluateRequest → Token × TokenSource → PolicyDecision → AuditEntry
unfolding truncate_command
entry_of now req (token, source) decision = record {
  timestamp = now;
  error_code = token.error_code;
  validator_name = req.validator_name;
  allowed = decision.allowed;
  reason = token.reason;
  denial_reason = if decision.allowed then [] else decision.reason;
  source = source_string source;
  command = truncate_command req.command;
  working_dir = req.working_dir;
  repository = req.repository;
}

unfoldable pub to_result :
    Time → EvaluateRequest → Token × TokenSource → PolicyDecision → ExceptionResult
to_result now req found decision = record {
  allowed = decision.allowed;
  reason = decision.reason;
  audit_entry = some (entry_of now req found decision);
}

module _ (u : Unicode) where
  -- What follows the search for a token.
  unfoldable pub judge :
      Engine → Time → EvaluateRequest → Option (Token × TokenSource) → ExceptionResult
  judge e now req none = denied (codes "no exception token found")
  judge e now req (some found) =
      if code_mismatch req.error_code found.0.error_code
      then denied (
          codes "token error code "
          ++ (found.0.error_code ++ (codes " does not match expected " ++ req.error_code)))
      else to_result now req found (match u e.matcher (some (to_exception_request now req found)))

  -- `Evaluate`; the clock is read twice in a row, and both readings are `now`.
  unfoldable pub evaluate : Engine → Time → Option EvaluateRequest → ExceptionResult
  unfolding judge
  evaluate e now none = denied (codes "no request provided")
  evaluate e now (some req) =
      if not (is_enabled e.config)
      then denied (codes "exception system is disabled")
      else elim (parse e.parser req.command) [
        | err error ↦ denied (codes "failed to parse command: " ++ error_text error)
        | ok found ↦ judge e now req found
      ]

-- `HasToken` and `GetTokenErrorCode`
unfoldable pub has_token : Engine → Str → Bool
has_token e command = elim (parse e.parser command) [
  | err error ↦ false
  | ok none ↦ false
  | ok (some found) ↦ true
]

unfoldable pub get_token_error_code : Engine → Str → Str
get_token_error_code e command = elim (parse e.parser command) [
  | err error ↦ []
  | ok none ↦ []
  | ok (some found) ↦ found.0.error_code
]
