-- ===== src/Exceptions/Policy.antt =====
-- internal/exceptions/policy.go: whether the configured policy accepts a token.
pub mod Permits
use klaudiush.Prelude.{
  Bool, true, false, not, ◌&&◌, Option, none, some, List, [], ◌∷◌, ◌++◌, any, if◌then◌else◌,
}
use klaudiush.Prelude.Bytes.{Str, codes, is_empty, str_eq}
use klaudiush.Prelude.Bytes.Text.{trim_space, rune_count, itoa}
use klaudiush.Prelude.Int.{ℤ, pos, ltb_ℤ}
use klaudiush.Prelude.Maps.{is_some}
use klaudiush.Prelude.Unicode.{Unicode}
use klaudiush.Exceptions.Config.{
  ExceptionPolicyConfig, ExceptionsConfig, is_enabled, is_require_explicit_policy, get_policy,
  is_policy_enabled, is_exception_allowed, is_reason_required, get_min_reason_length,
  policy_max_per_hour, policy_max_per_day,
}
use klaudiush.Exceptions.Types.{Token, ExceptionRequest, PolicyDecision}

abbrev pub default_policy : ExceptionPolicyConfig
default_policy = record {
  enabled = none;
  allow_exception = none;
  require_reason = none;
  min_reason_length = none;
  valid_reasons = [];
  max_per_hour = none;
  max_per_day = none;
  description = [];
}

unfoldable pub policy_of : Option ExceptionsConfig → Str → ExceptionPolicyConfig
policy_of none error_code = default_policy
policy_of (some config) error_code = elim (get_policy (some config) error_code) [
  | none ↦ default_policy
  | some policy ↦ policy
]

unfoldable pub has_explicit_policy : Option ExceptionsConfig → Str → Bool
has_explicit_policy none error_code = false
has_explicit_policy (some config) error_code = is_some (get_policy (some config) error_code)

-- `GetPolicyLimits` of the matcher.
unfoldable pub policy_limits : Option ExceptionsConfig → Str → ℤ × ℤ
policy_limits config error_code = (
  policy_max_per_hour (some (policy_of config error_code)),
  policy_max_per_day (some (policy_of config error_code)),
)

abbrev refuse : Str → Bool → Str → PolicyDecision
refuse reason required provided = record {
  allowed = false;
  reason = reason;
  required_reason = required;
  provided_reason = provided;
}

-- The tests of `Match` that come before the reason, in the code's order: the first that fails.
unfoldable pub first_refusal : Option ExceptionsConfig → Str → Option Str
first_refusal config code =
    let policy = some (policy_of config code) in
    if not (is_enabled config)
    then some (codes "exception system is disabled")
    else if is_require_explicit_policy config && not (has_explicit_policy config code)
    then some (codes "no explicit policy for " ++ code)
    else if not (is_policy_enabled policy)
    then some (codes "policy for " ++ (code ++ codes " is disabled"))
    else if not (is_exception_allowed policy)
    then some (codes "exceptions not allowed for " ++ code)
    else none

module _ (u : Unicode) where
  unfoldable pub is_valid_reason : List Str → Str → Bool
  is_valid_reason valid_reasons reason =
      any (λ valid. str_eq (u.to_lower (trim_space reason)) (u.to_lower (trim_space valid)))
        valid_reasons

  unfoldable pub not_approved : List Str → Str → Bool
  unfolding is_valid_reason
  not_approved [] reason = false
  not_approved (v ∷ vs) reason = not (is_valid_reason (v ∷ vs) reason)

  unfoldable pub validate_reason : ExceptionPolicyConfig → Str → PolicyDecision
  validate_reason policy given =
      let reason = trim_space given in
      let min_length = get_min_reason_length (some policy) in
      if is_empty reason
      then refuse (codes "reason is required but not provided") true []
      else if ltb_ℤ (pos (rune_count reason)) min_length
      then refuse (codes "reason too short (minimum " ++ (itoa min_length ++ codes " characters)"))
          true reason
      else if not_approved policy.valid_reasons reason
      then refuse (codes "reason not in approved list") true reason
      else record { allowed = true; reason = []; required_reason = true; provided_reason = reason }

  unfoldable pub accept : Option ExceptionsConfig → Token → PolicyDecision
  accept config token =
      let policy = policy_of config token.error_code in
      let decision = validate_reason policy token.reason in
      if is_reason_required (some policy) && not decision.allowed then decision else record {
        allowed = true;
        reason = codes "policy allows exception for " ++ token.error_code;
        required_reason = is_reason_required (some policy);
        provided_reason = token.reason;
      }

  unfoldable pub match_token : Option ExceptionsConfig → Option Token → PolicyDecision
  match_token config none = refuse (codes "no exception token provided") false []
  match_token config (some token) = elim (first_refusal config token.error_code) [
    | some reason ↦ refuse reason false []
    | none ↦ accept config token
  ]

  -- `Match`; a nil request is refused like a request with no token.
  unfoldable pub match : Option ExceptionsConfig → Option ExceptionRequest → PolicyDecision
  match config none = match_token config none
  match config (some req) = match_token config req.token
