-- ===== src/Exceptions/Types.antt =====
-- internal/exceptions/types.go and the result types of token.go: tokens, requests and decisions.
use klaudiush.Prelude.{Bool, Option}
use klaudiush.Prelude.Bytes.{Str, codes}
use klaudiush.Exceptions.RateLimit.{Time}

pub record Token : Type 0 where
  pub prefix : Str
  pub error_code : Str
  pub reason : Str
  pub raw : Str

pub data TokenSource : Type 0 where
  unknown comment env_var : TokenSource

unfoldable pub source_string : TokenSource → Str
source_string comment = codes "comment"
source_string env_var = codes "env_var"
source_string _ = codes "unknown"

pub record ExceptionRequest : Type 0 where
  pub token : Option Token
  pub source : TokenSource
  pub command : Str
  pub validator_name : Str
  pub error_code : Str
  pub request_time : Time

pub record AuditEntry : Type 0 where
  pub timestamp : Time
  pub error_code : Str
  pub validator_name : Str
  pub allowed : Bool
  pub reason : Str
  pub denial_reason : Str
  pub source : Str
  pub command : Str
  pub working_dir : Str
  pub repository : Str

pub record ExceptionResult : Type 0 where
  pub allowed : Bool
  pub reason : Str
  pub audit_entry : Option AuditEntry

pub record PolicyDecision : Type 0 where
  pub allowed : Bool
  pub reason : Str
  pub required_reason : Bool
  pub provided_reason : Str
