-- ===== src/Dispatcher/Errors.antt =====
-- `ValidationError` of internal/dispatcher/dispatcher.go and `toValidationError` of executor.go.
use klaudiush.Prelude.{Bool, false, List, [], ◌++◌, if◌then◌else◌}
use klaudiush.Prelude.Bytes.{Str, codes, is_empty, trim_prefix}
use klaudiush.Validator.{Result, Validator}

pub record ValidationError : Type 0 where
  pub validator : Str
  pub message : Str
  pub details : List (Str × Str)
  pub should_block : Bool
  pub reference : Str
  pub fix_hint : Str
  pub bypassed : Bool
  pub bypass_reason : Str

-- `Error`
unfoldable pub error_string : ValidationError → Str
error_string e =
    if is_empty e.message then e.validator else e.validator ++ (codes ": " ++ e.message)

unfoldable pub short_name : Str → Str
short_name name = trim_prefix name (codes "validate-")

unfoldable pub to_validation_error : Validator → Result → ValidationError
to_validation_error v result = record {
  validator = v.name;
  message = result.message;
  details = result.details;
  should_block = result.should_block;
  reference = result.reference;
  fix_hint = result.fix_hint;
  bypassed = false;
  bypass_reason = [];
}
