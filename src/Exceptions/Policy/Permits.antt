-- ===== src/Exceptions/Policy/Permits.antt =====
-- What a policy asks of a token, stated without the order of the tests, and that `Match` decides it.
use klaudiush.Prelude.{
  ◌≡◌, refl, ◌≢◌, ◌↔◌, ◌⊎◌, inl, inr, Bool, true, false, ◌||◌, Option, some, List, [], ◌∷◌, arith,
}
use klaudiush.Prelude.Bytes.{Str}
use klaudiush.Prelude.Bytes.Laws.{str_eq_iff}
use klaudiush.Prelude.Bytes.Text.{trim_space, rune_count}
use klaudiush.Prelude.Int.{pos, ◌≤ℤ◌}
use klaudiush.Prelude.Unicode.{Unicode}
use klaudiush.Exceptions.Config.{
  ExceptionPolicyConfig, ExceptionsConfig, is_enabled, is_require_explicit_policy,
  is_policy_enabled, is_exception_allowed, is_reason_required, get_min_reason_length,
}
use klaudiush.Exceptions.Types.{Token, ExceptionRequest}
use klaudiush.Exceptions.Policy.{
  policy_of, has_explicit_policy, first_refusal, is_valid_reason, validate_reason, accept,
  match_token, match, not_approved,
}

or_cases : {a b : Bool} → (a || b) ≡ true → (a ≡ true) ⊎ (b ≡ true)
or_cases {a} {b} h = ground (arith, h)

or_true : (a : Bool) {b : Bool} → b ≡ true → (a || b) ≡ true
or_true a h = ground (arith, h)

module _ (u : Unicode) where
  -- One of the approved reasons, up to case and surrounding white space.
  abbrev pub Approves : Str → List Str → Type 0
  Approves reason [] = ⊥
  Approves reason (v ∷ vs) =
      (u.to_lower (trim_space reason) ≡ u.to_lower (trim_space v)) ⊎ Approves reason vs

  pub record IsGoodReason (policy : ExceptionPolicyConfig) (given : Str) : Type 0 where
    pub present : trim_space given ≢ []
    pub long_enough : get_min_reason_length (some policy) ≤ℤ pos (rune_count (trim_space given))
    pub approved : (policy.valid_reasons ≡ []) ⊎ Approves (trim_space given) policy.valid_reasons

  pub record Permits (config : Option ExceptionsConfig) (token : Token) : Type 0 where
    pub enabled : is_enabled config ≡ true
    pub explicit :
        is_require_explicit_policy config ≡ true
        → has_explicit_policy config token.error_code ≡ true
    pub policy_enabled : is_policy_enabled (some (policy_of config token.error_code)) ≡ true
    pub exception_allowed : is_exception_allowed (some (policy_of config token.error_code)) ≡ true
    pub good_reason :
        is_reason_required (some (policy_of config token.error_code)) ≡ true
        → IsGoodReason (policy_of config token.error_code) token.reason

  is_valid_reason_iff :
      (vs : List Str) (reason : Str) → (is_valid_reason u vs reason ≡ true) ↔ Approves reason vs
  unfolding is_valid_reason
  is_valid_reason_iff [] reason = (λ h. cc, λ h. absurd h)
  is_valid_reason_iff (v ∷ vs) reason =
      let (to, from) = is_valid_reason_iff vs reason in
      let (same, back) = str_eq_iff (u.to_lower (trim_space reason)) (u.to_lower (trim_space v)) in
      (
        λ h. elim (or_cases h) [ inl p ↦ inl (same p) | inr q ↦ inr (to q) ],
        λ h. elim h [ inl p ↦ rw (back p) | inr q ↦ or_true _ (from q) ],
      )

  not_approved_iff :
      (vs : List Str) (reason : Str)
      → (not_approved u vs reason ≡ false) ↔ ((vs ≡ []) ⊎ Approves reason vs)
  unfolding not_approved
  not_approved_iff [] reason = (λ h. inl refl, λ h. refl)
  not_approved_iff (v ∷ vs) reason =
      let (to, from) = is_valid_reason_iff (v ∷ vs) reason in
      (λ h. inr (to (ground (arith, h))), λ h. elim h [ inl p ↦ absurd (cc) | inr q ↦ rw (from q) ])

  validate_reason_iff :
      (policy : ExceptionPolicyConfig) (given : Str)
      → ((validate_reason u policy given).allowed ≡ true) ↔ IsGoodReason policy given
  unfolding validate_reason
  validate_reason_iff policy given =
      let (to, from) = not_approved_iff policy.valid_reasons (trim_space given) in
      (
        λ h. record {
          present = λ e. ground (arith, h, e);
          long_enough = ground (arith, h);
          approved = to (ground (arith, h));
        },
        λ g. ground (arith, g.present, g.long_enough, from g.approved),
      )

  accept_iff :
      (config : Option ExceptionsConfig) (token : Token)
      → ((accept u config token).allowed ≡ true) ↔ (
          is_reason_required (some (policy_of config token.error_code)) ≡ true
          → (validate_reason u (policy_of config token.error_code) token.reason).allowed ≡ true)
  unfolding accept
  accept_iff config token = (λ h required. ground (arith, h, required), λ k. ground (arith, k))

  -- Each field of `Permits` is read off the code where no test refuses, and the other way round.
  match_token_iff :
      (config : Option ExceptionsConfig) (token : Token)
      → ((match_token u config (some token)).allowed ≡ true) ↔ Permits config token
  unfolding match_token first_refusal
  match_token_iff config token =
      let (to, from) = accept_iff config token in
      let (good, back) = validate_reason_iff (policy_of config token.error_code) token.reason in
      (
        λ h. record {
          enabled = ground (arith, h);
          explicit = λ k. ground (arith, h, k);
          policy_enabled = ground (arith, h);
          exception_allowed = ground (arith, h);
          good_reason = λ required. good (to (ground (arith, h)) required);
        },
        λ p.
            let passed = from (λ k. back (p.good_reason k)) in
            ground (arith, p.enabled, p.explicit, p.policy_enabled, p.exception_allowed, passed),
      )

  pub match-allowed_iff :
      (config : Option ExceptionsConfig) (req : ExceptionRequest) (token : Token)
      → req.token ≡ some token
      → ((match u config (some req)).allowed ≡ true) ↔ Permits config token
  unfolding match
  match-allowed_iff config req token e = rw e (match_token_iff config token)
