-- ===== src/Exceptions/Config.antt =====
-- pkg/config/exceptions.go: the configuration records of the exception workflow and their getters.
-- A Go pointer that may be nil is an `Option`; the getters have pointer receivers, so a nil
-- receiver is `none`. Numbers of the configuration are signed, as in Go.
use klaudiush.Prelude.{Bool, true, false, Option, none, some, List}
use klaudiush.Prelude.Bytes.{Str, codes, is_empty}
use klaudiush.Prelude.Int.{ℤ, pos}
use klaudiush.Prelude.Maps.{get_or, and_then, lookup}
use klaudiush.Prelude.{if◌then◌else◌}

abbrev pub default_min_reason_length : ℤ
default_min_reason_length = pos 10

abbrev pub default_rate_limit_per_hour : ℤ
default_rate_limit_per_hour = pos 10

abbrev pub default_rate_limit_per_day : ℤ
default_rate_limit_per_day = pos 50

pub record ExceptionPolicyConfig : Type 0 where
  pub enabled : Option Bool
  pub allow_exception : Option Bool
  pub require_reason : Option Bool
  pub min_reason_length : Option ℤ
  pub valid_reasons : List Str
  pub max_per_hour : Option ℤ
  pub max_per_day : Option ℤ
  pub description : Str

pub record ExceptionRateLimitConfig : Type 0 where
  pub enabled : Option Bool
  pub max_per_hour : Option ℤ
  pub max_per_day : Option ℤ
  pub state_file : Str

pub record ExceptionAuditConfig : Type 0 where
  pub enabled : Option Bool
  pub log_file : Str
  pub max_size_mb : Option ℤ
  pub max_age_days : Option ℤ
  pub max_backups : Option ℤ

pub record ExceptionsConfig : Type 0 where
  pub enabled : Option Bool
  pub policies : List (Str × Option ExceptionPolicyConfig)
  pub rate_limit : Option ExceptionRateLimitConfig
  pub audit : Option ExceptionAuditConfig
  pub require_explicit_policy : Option Bool
  pub token_prefix : Str

-- The field of the record behind a pointer, its default where the pointer or the field is nil.
abbrev field_or {ℓ κ} : {R : Type ℓ} {A : Type κ} → Option R → (R → Option A) → A → A
field_or r f d = get_or (and_then r f) d

unfoldable pub is_enabled : Option ExceptionsConfig → Bool
is_enabled e = field_or e (λ c. c.enabled) true

unfoldable pub is_require_explicit_policy : Option ExceptionsConfig → Bool
is_require_explicit_policy e = field_or e (λ c. c.require_explicit_policy) false

abbrev prefix_or : Str → Str
prefix_or s = if is_empty s then codes "EXC" else s

unfoldable pub get_token_prefix : Option ExceptionsConfig → Str
get_token_prefix none = codes "EXC"
get_token_prefix (some e) = prefix_or e.token_prefix

-- A missing key of the map yields its zero value, the nil pointer.
unfoldable pub get_policy : Option ExceptionsConfig → Str → Option ExceptionPolicyConfig
get_policy none error_code = none
get_policy (some e) error_code = get_or (lookup error_code e.policies) none

unfoldable pub is_policy_enabled : Option ExceptionPolicyConfig → Bool
is_policy_enabled p = field_or p (λ c. c.enabled) true

unfoldable pub is_exception_allowed : Option ExceptionPolicyConfig → Bool
is_exception_allowed p = field_or p (λ c. c.allow_exception) true

unfoldable pub is_reason_required : Option ExceptionPolicyConfig → Bool
is_reason_required p = field_or p (λ c. c.require_reason) false

unfoldable pub get_min_reason_length : Option ExceptionPolicyConfig → ℤ
get_min_reason_length p = field_or p (λ c. c.min_reason_length) default_min_reason_length

unfoldable pub policy_max_per_hour : Option ExceptionPolicyConfig → ℤ
policy_max_per_hour p = field_or p (λ c. c.max_per_hour) (pos 0)

unfoldable pub policy_max_per_day : Option ExceptionPolicyConfig → ℤ
policy_max_per_day p = field_or p (λ c. c.max_per_day) (pos 0)

unfoldable pub is_rate_limit_enabled : Option ExceptionRateLimitConfig → Bool
is_rate_limit_enabled r = field_or r (λ c. c.enabled) true

unfoldable pub get_max_per_hour : Option ExceptionRateLimitConfig → ℤ
get_max_per_hour r = field_or r (λ c. c.max_per_hour) default_rate_limit_per_hour

unfoldable pub get_max_per_day : Option ExceptionRateLimitConfig → ℤ
get_max_per_day r = field_or r (λ c. c.max_per_day) default_rate_limit_per_day

unfoldable pub is_audit_enabled : Option ExceptionAuditConfig → Bool
is_audit_enabled a = field_or a (λ c. c.enabled) true
