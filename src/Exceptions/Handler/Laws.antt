-- ===== src/Exceptions/Handler/Laws.antt =====
-- `Check` never faults, and bypasses an error only for a granted token with room in every limit.
use klaudiush.Prelude.{◌≡◌, refl, ◌⊎◌, inl, inr, true, false, Option, some, List, Bool-cases}
use klaudiush.Prelude.Bytes.{Str, is_empty}
use klaudiush.Prelude.Unicode.{Unicode}
use klaudiush.Exceptions.Config.{is_enabled}
use klaudiush.Exceptions.RateLimit.{Zone, CheckResult, check, record_usage}
use klaudiush.Exceptions.Types.{AuditEntry}
use klaudiush.Exceptions.Engine.{evaluate}
use klaudiush.Exceptions.Engine.Laws.{Grants, evaluate-Grants}
use klaudiush.Exceptions.Handler.{
  Handler, refused, CheckRequest, CheckResponse, Surroundings, command_of, to_evaluate_request,
  check_evaluated, check_rate, check_exception, handle_policy_denial, handle_rate_limit_denial,
  handle_allowed_exception, log_audit_entry,
}

module _ (u : Unicode) (zone : Zone) where
  -- What holds of the answer and of the handler after one `Check`.
  pub record Outcome (env : Surroundings) (req : CheckRequest) (h : Handler) (r : CheckResponse)
      (h' : Handler) : Type 0 where
    -- Only a granted token whose code is within its limits bypasses, and it is counted.
    pub bypass :
        r.bypassed ≡ true
        → (entry : AuditEntry) × Grants u h.engine (to_evaluate_request env req) entry
          × (r.error_code ≡ entry.error_code)
          × ((check zone env.checked_at entry.error_code h.rate_limiter).0.allowed ≡ true)
          × (h'.rate_limiter
              ≡ record_usage zone env.recorded_at env.stamped_at entry.error_code
                  (check zone env.checked_at entry.error_code h.rate_limiter).1)
    -- A refusal leaves the counters as they are, or as a check of the limits leaves them.
    pub refusal :
        r.bypassed ≡ false
        → (h'.rate_limiter ≡ h.rate_limiter)
          ⊎ ((code : Str) × (h'.rate_limiter ≡ (check zone env.checked_at code h.rate_limiter).1))
    pub engine : h'.engine ≡ h.engine
    pub config : h'.config ≡ h.config

  -- The computation returns, with such an outcome.
  abbrev pub Ends :
      Surroundings → CheckRequest → Handler → Option (CheckResponse × Handler) → Type 0
  Ends env req h o =
      (r : CheckResponse) × (h' : Handler) × (o ≡ some (r, h')) × Outcome env req h r h'

  module _ (env : Surroundings) (req : CheckRequest) (h : Handler) where
    Ends-unchanged :
        (reason code : Str) (info : Option CheckResult) (log : List AuditEntry)
        → Ends env req h (some (refused reason code info, record h { audit_log = log }))
    Ends-unchanged reason code info log = (
      refused reason code info,
      record h { audit_log = log },
      refl,
      record { bypass = λ b. cc; refusal = λ _. inl refl; engine = refl; config = refl },
    )

    -- Both ends of `Check` behind the policy.
    check_rate-Ends :
        (entry : AuditEntry)
        → Grants u h.engine (to_evaluate_request env req) entry
        → Ends env req h (check_rate zone env (some entry) h)
    unfolding check_rate handle_rate_limit_denial handle_allowed_exception log_audit_entry
    check_rate-Ends entry g =
        let (limit, limiter) = check zone env.checked_at entry.error_code h.rate_limiter in
        let h' = record h { rate_limiter = limiter } in
        elim (Bool-cases limit.allowed) [
          | inl room ↦
              let out = handle_allowed_exception zone env entry limit h' in
              (
                out.0,
                out.1,
                rw room,
                record {
                  bypass = λ _. (entry, g, refl, room, refl);
                  refusal = λ b. cc;
                  engine = refl;
                  config = refl;
                },
              )
          | inr full ↦
              let out = handle_rate_limit_denial env entry limit h' in
              (
                out.0,
                out.1,
                rw full,
                record {
                  bypass = λ b. cc;
                  refusal = λ _. inr (entry.error_code, refl);
                  engine = refl;
                  config = refl;
                },
              )
        ]

    check_evaluated-Ends : Ends env req h (
        check_evaluated u zone env req
          (evaluate u h.engine env.evaluated_at (some (to_evaluate_request env req)))
          h)
    unfolding check_evaluated handle_policy_denial log_audit_entry
    check_evaluated-Ends =
        let asked = to_evaluate_request env req in
        let result = evaluate u h.engine env.evaluated_at (some asked) in
        elim (Bool-cases result.allowed) [
          | inl allowed ↦
              let (entry, carried, g) = evaluate-Grants u h.engine env.evaluated_at asked allowed in
              rw allowed (rw carried (check_rate-Ends entry g))
          | inr denied ↦ rw denied (Ends-unchanged _ _ _ _)
        ]

    -- `Check` returns on every request. A bypass is of a token that the engine grants and whose code
    -- is within the limits, and is counted; without one the counters stay, or are those of a check of
    -- the limits. The engine and the configuration stay.
    pub check_exception-Ends : Ends env req h (check_exception u zone env (some req) h)
    unfolding check_exception
    check_exception-Ends = elim (Bool-cases (is_enabled h.config)) [
      | inr off ↦ rw off (Ends-unchanged _ _ _ _)
      | inl on ↦ elim (Bool-cases (is_empty (command_of req.hook_context))) [
        | inl blank ↦ rw (on, blank) (Ends-unchanged _ _ _ _)
        | inr text ↦ rw (on, text) check_evaluated-Ends
      ]
    ]
