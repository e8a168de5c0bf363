-- ===== src/Exceptions/Handler/Limits.antt =====
-- The limits over any sequence of checks, as the dispatcher makes them one after another.
use mathlib.Core.Path.{subst}
use klaudiush.Prelude.{
  ◌≤◌, ◌≡◌, refl, ap, ◌∙◌, sym, inl, inr, true, false, Option, none, some, List, [], ◌∷◌, arith,
  Bool-cases, if◌then◌else◌,
}
use klaudiush.Prelude.Bytes.{Str}
use klaudiush.Prelude.Unicode.{Unicode}
use klaudiush.Exceptions.Config.{ExceptionsConfig, ExceptionRateLimitConfig}
use klaudiush.Exceptions.RateLimit.{
  Time, Zone, IsForward, truncate_to_local_day, truncate_to_hour, RateLimiter, check, record_usage,
  is_disabled, get_global_max_per_hour, get_global_max_per_day, get_policy_limits, new_rate_limiter,
}
use klaudiush.Exceptions.RateLimit.Windows.{Within, count_in}
use klaudiush.Exceptions.RateLimit.History.{History, times, times_of, IsConsistent}
use klaudiush.Exceptions.RateLimit.Steps.{
  IsConsistent-later, check-HasRoom, check-IsConsistent, record_usage-IsConsistent,
  new_rate_limiter-IsConsistent, check-config, record_usage-config,
}
use klaudiush.Exceptions.Handler.{
  Handler, CheckRequest, CheckResponse, Surroundings, check_exception,
}
use klaudiush.Exceptions.Handler.Laws.{Outcome, check_exception-Ends}

abbrev pub Schedule : Type 0
Schedule = List (Surroundings × CheckRequest)

-- The clock does not run backwards between the readings that the limiter makes.
abbrev pub IsOrdered : Time → Schedule → Type 0
IsOrdered last [] = Unit
IsOrdered last ((env, req) ∷ rest) =
    (last ≤ env.checked_at) × (env.checked_at ≤ env.recorded_at) × IsOrdered env.recorded_at rest

-- The last of these readings.
abbrev pub last_time : Time → Schedule → Time
last_time last [] = last
last_time last ((env, req) ∷ rest) = last_time env.recorded_at rest

-- A bypass with the time at which it was recorded.
abbrev pub extend : CheckResponse → Time → History → History
extend r now log = if r.bypassed then (r.error_code, now) ∷ log else log

module _ (u : Unicode) (zone : Zone) where
  -- The checks of a schedule in order, with the bypasses so far; a fault would end the run.
  unfoldable pub run : Handler → History → Schedule → History × Handler
  run h log [] = (log, h)
  run h log ((env, req) ∷ rest) = elim (check_exception u zone env (some req) h) [
    | none ↦ (log, h)
    | some (r, h') ↦ run h' (extend r env.recorded_at log) rest
  ]

-- In no hour and on no day were there more bypasses than the limits allow, in all and for each
-- error code.
pub record IsWithinLimits (zone : Zone) (config : Option ExceptionRateLimitConfig)
    (policy : Option ExceptionsConfig) (log : History) : Type 0 where
  pub hour :
      (w : Time) → Within (get_global_max_per_hour config) (count_in truncate_to_hour w (times log))
  pub day :
      (w : Time)
      → Within (get_global_max_per_day config) (count_in (truncate_to_local_day zone) w (times log))
  pub code_hour :
      (k : Str) (w : Time)
      → Within (get_policy_limits policy k).0 (count_in truncate_to_hour w (times_of k log))
  pub code_day :
      (k : Str) (w : Time)
      → Within
          (get_policy_limits policy k).1
          (count_in (truncate_to_local_day zone) w (times_of k log))

module _ (u : Unicode) (zone : Zone) (forward : IsForward zone)
    (config : Option ExceptionRateLimitConfig) (policy : Option ExceptionsConfig)
    (limits : is_disabled config ≡ false) where
  -- The limiter has this configuration and agrees with the history.
  pub record IsSound (l : RateLimiter) (last : Time) (log : History) : Type 0 where
    pub same_config : l.config ≡ config
    pub same_policy : l.policy ≡ policy
    pub consistent : IsConsistent zone forward l last log

  pub IsSound-later :
      (last now : Time) (l : RateLimiter) (log : History)
      → last ≤ now
      → IsSound l last log
      → IsSound l now log
  IsSound-later last now l log le s = record {
    same_config = s.same_config;
    same_policy = s.same_policy;
    consistent = IsConsistent-later zone forward last now l log le s.consistent;
  }

  IsSound-check :
      (last now : Time) (code : Str) (l : RateLimiter) (log : History)
      → last ≤ now
      → IsSound l last log
      → IsSound (check zone now code l).1 now log
  IsSound-check last now code l log le s =
      let (c, p) = check-config zone now code l in
      record {
        same_config = c ∙ s.same_config;
        same_policy = p ∙ s.same_policy;
        consistent = check-IsConsistent zone forward last now code l log le s.consistent;
      }

  IsSound-record :
      (last now recorded stamp : Time) (code : Str) (l : RateLimiter) (log : History)
      → last ≤ now
      → now ≤ recorded
      → (check zone now code l).0.allowed ≡ true
      → IsSound l last log
      → IsSound
          (record_usage zone recorded stamp code (check zone now code l).1)
          recorded
          ((code, recorded) ∷ log)
  IsSound-record last now recorded stamp code l log le le' allowed s =
      let l' = (check zone now code l).1 in
      let s' = IsSound-check last now code l log le s in
      let on = ap is_disabled s.same_config ∙ limits in
      let room = check-HasRoom zone forward now code l on allowed in
      let (c, p) = record_usage-config zone recorded stamp code l' in
      record {
        same_config = c ∙ s'.same_config;
        same_policy = p ∙ s'.same_policy;
        consistent =
            record_usage-IsConsistent zone forward now recorded stamp code l' log le' room
              s'.consistent;
      }

  IsSound-step :
      (last : Time) (log : History) (env : Surroundings) (req : CheckRequest) (h : Handler)
      (r : CheckResponse) (h' : Handler)
      → last ≤ env.checked_at
      → env.checked_at ≤ env.recorded_at
      → IsSound h.rate_limiter last log
      → Outcome u zone env req h r h'
      → IsSound h'.rate_limiter env.recorded_at (extend r env.recorded_at log)
  IsSound-step last log env req h r h' le le' s o = elim (Bool-cases r.bypassed) [
    | inl bypassed ↦
        let (entry, granted, code, allowed, after) = o.bypass bypassed in
        rw (bypassed, code, after)
          (IsSound-record last env.checked_at env.recorded_at env.stamped_at entry.error_code
            h.rate_limiter log le le' allowed s)
    | inr refused ↦ elim (o.refusal refused) [
      | inl same ↦ rw (refused, same) (IsSound-later last env.recorded_at _ log (omega arith) s)
      | inr (code, same) ↦
          rw (refused, same)
            (IsSound-later env.checked_at env.recorded_at _ log le'
              (IsSound-check last env.checked_at code h.rate_limiter log le s))
    ]
  ]

  pub IsSound-run :
      (last : Time) (log : History) (h : Handler) (schedule : Schedule)
      → IsOrdered last schedule
      → IsSound h.rate_limiter last log
      → IsSound
          (run u zone h log schedule).1.rate_limiter
          (last_time last schedule)
          (run u zone h log schedule).0
  unfolding run
  IsSound-run last log h [] ordered s = s
  IsSound-run last log h ((env, req) ∷ rest) (le, le', ordered) s =
      let (r, h', returned, o) = check_exception-Ends u zone env req h in
      rw (returned, run)
        (IsSound-run env.recorded_at (extend r env.recorded_at log) h' rest ordered
          (IsSound-step last log env req h r h' le le' s o))

  pub within_of :
      (last : Time) (l : RateLimiter) (log : History)
      → IsSound l last log
      → IsWithinLimits zone config policy log
  within_of last l log s = record {
    hour = λ w.
        subst (λ c. Within (get_global_max_per_hour c) (count_in truncate_to_hour w (times log)))
          s.same_config (s.consistent.hourly.within w);
    day = λ w.
        subst
          (λ c.
            Within (get_global_max_per_day c) (count_in (truncate_to_local_day zone) w (times log)))
          s.same_config (s.consistent.daily.within w);
    code_hour = λ k w.
        subst (λ p. Within (get_policy_limits p k).0 (count_in truncate_to_hour w (times_of k log)))
          s.same_policy ((s.consistent.code_hourly k).within w);
    code_day = λ k w.
        subst
          (λ p.
            Within (get_policy_limits p k).1
              (count_in (truncate_to_local_day zone) w (times_of k log)))
          s.same_policy ((s.consistent.code_daily k).within w);
  }

  -- With rate limiting on, from a fresh limiter, over any requests in turn whose clock readings do not
  -- go back, in a time zone in which the start of the local day never goes back: no hour and no local
  -- day holds more bypasses than a limit allows: the two global limits, and for each error code the two
  -- of its policy. A limit that is not positive does not bound. Zones whose clock is set back over a
  -- midnight, so that a local date comes back, are not covered.
  pub run-IsWithinLimits :
      (start : Time) (h : Handler) (schedule : Schedule)
      → h.rate_limiter ≡ new_rate_limiter zone config policy start
      → IsOrdered start schedule
      → IsWithinLimits zone config policy (run u zone h [] schedule).0
  unfolding new_rate_limiter
  run-IsWithinLimits start h schedule fresh ordered =
      let first = new_rate_limiter-IsConsistent zone forward config policy start in
      let sound : IsSound h.rate_limiter start [] =
        subst (λ l. IsSound l start []) (sym fresh)
          (record { same_config = refl; same_policy = refl; consistent = first }) in
      within_of _ _ _ (IsSound-run start [] h schedule ordered sound)
