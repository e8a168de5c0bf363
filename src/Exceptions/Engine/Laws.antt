-- ===== src/Exceptions/Engine/Laws.antt =====
-- What an allowed evaluation has established, and what every evaluation records.
use klaudiush.Prelude.{
  ◌≡◌, refl, ◌⊎◌, inl, inr, true, false, Option, none, some, [], ◌∷◌, arith, Bool-cases,
}
use klaudiush.Prelude.Bytes.{Str}
use klaudiush.Prelude.Bytes.Laws.{str_eq_iff}
use klaudiush.Prelude.Unicode.{Unicode}
use klaudiush.Exceptions.Config.{is_enabled}
use klaudiush.Exceptions.RateLimit.{Time}
use klaudiush.Exceptions.Types.{Token, TokenSource, AuditEntry}
use klaudiush.Exceptions.Policy.{match}
use klaudiush.Exceptions.Policy.Permits.{Permits, match-allowed_iff}
use klaudiush.Exceptions.Token.{Parsed, ok, err}
use klaudiush.Exceptions.Token.Source.{parse}
use klaudiush.Exceptions.Engine.{
  Engine, EvaluateRequest, to_exception_request, entry_of, to_result, judge, evaluate,
  code_mismatch,
}

expected_of :
    (expected found : Str)
    → code_mismatch expected found ≡ false
    → (expected ≡ []) ⊎ (found ≡ expected)
expected_of [] found h = inl refl
expected_of (c ∷ s) found h = inr (ground (arith, str_eq_iff found (c ∷ s)))

module _ (u : Unicode) where
  -- The command holds a token for the expected code that the policy permits.
  pub record Grants (e : Engine) (req : EvaluateRequest) (entry : AuditEntry) : Type 0 where
    pub token : Token
    pub source : TokenSource
    pub enabled : is_enabled e.config ≡ true
    pub found : parse e.parser req.command ≡ ok (some (token, source))
    pub expected : (req.error_code ≡ []) ⊎ (token.error_code ≡ req.error_code)
    pub permitted : Permits u e.matcher token
    pub entry_code : entry.error_code ≡ token.error_code
    pub entry_allowed : entry.allowed ≡ true
    pub entry_reason : entry.reason ≡ token.reason

  judge-allowed :
      (e : Engine) (now : Time) (req : EvaluateRequest) (found : Option (Token × TokenSource))
      → is_enabled e.config ≡ true
      → parse e.parser req.command ≡ ok found
      → (judge u e now req found).allowed ≡ true
      → (entry : AuditEntry) × ((judge u e now req found).audit_entry ≡ some entry)
        × Grants e req entry
  unfolding judge to_result entry_of to_exception_request
  judge-allowed e now req none on p h = cc
  judge-allowed e now req (some (token, source)) on p h =
      elim (Bool-cases (code_mismatch req.error_code token.error_code)) [
        | inl differs ↦ cc (rw differs at h)
        | inr agrees ↦
            let asked = to_exception_request now req (token, source) in
            let allowed = rw agrees at h in
            (
              entry_of now req (token, source) (match u e.matcher (some asked)),
              rw agrees,
              record {
                token = token;
                source = source;
                enabled = on;
                found = p;
                expected = expected_of req.error_code token.error_code agrees;
                permitted = (match-allowed_iff u e.matcher asked token refl).0 allowed;
                entry_code = refl;
                entry_allowed = allowed;
                entry_reason = refl;
              },
            )
      ]

  evaluate_found :
      (e : Engine) (now : Time) (req : EvaluateRequest) (r : Parsed (Option (Token × TokenSource)))
      → parse e.parser req.command ≡ r
      → (evaluate u e now (some req)).allowed ≡ true
      → (entry : AuditEntry) × ((evaluate u e now (some req)).audit_entry ≡ some entry)
        × Grants e req entry
  unfolding evaluate
  evaluate_found e now req (err error) p h = absurd (ground (arith, h, p))
  evaluate_found e now req (ok found) p h = elim (Bool-cases (is_enabled e.config)) [
    | inl on ↦ rw (on, p, evaluate) (judge-allowed e now req found on p (rw (on, p, evaluate) at h))
    | inr off ↦ absurd (ground (arith, off, h))
  ]

  -- An allowed evaluation has the system on and found a token in the command, for the expected code if
  -- one is expected, which the policy permits; its audit entry has that token's code and reason.
  pub evaluate-Grants :
      (e : Engine) (now : Time) (req : EvaluateRequest)
      → (evaluate u e now (some req)).allowed ≡ true
      → (entry : AuditEntry) × ((evaluate u e now (some req)).audit_entry ≡ some entry)
        × Grants e req entry
  evaluate-Grants e now req h = evaluate_found e now req _ refl h
