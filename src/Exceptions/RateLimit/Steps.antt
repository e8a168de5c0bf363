-- ===== src/Exceptions/RateLimit/Steps.antt =====
-- Every operation of the limiter keeps it in agreement with the history, and a check that allows has
-- found room in every limit.
use klaudiush.Prelude.{
  ℕ, ◌≤◌, ◌≡◌, refl, true, false, List, [], ◌∷◌, arith, Bool-cases, inl, inr, Option,
}
use mathlib.Core.Path.{subst, ◌∙◌}
use klaudiush.Exceptions.Config.{ExceptionRateLimitConfig, ExceptionsConfig}
use klaudiush.Prelude.Bytes.{Str, str_eq}
use klaudiush.Prelude.Bytes.Laws.{str_eq_iff}
use klaudiush.Prelude.Int.{ℤ}
use klaudiush.Prelude.Maps.{lookup}
use klaudiush.Exceptions.RateLimit.{
  Time, Zone, IsForward, truncate_to_local_day, truncate_to_hour, RateLimitState, RateLimiter,
  usage, bump, exceeded, get_global_max_per_hour, get_global_max_per_day, get_policy_limits,
  new_rate_limiter, check_limits, is_disabled, reset_if_expired, check, record_usage,
}
use klaudiush.Exceptions.RateLimit.Windows.{
  Below, Below-of_exceeded, Tracks, roll_start-eq, Tracks-use, Tracks-fresh, Tracks-later,
  Below-roll,
}
use klaudiush.Exceptions.RateLimit.History.{
  History, times, times_of, usage-bump, truncate_to_hour_mono, IsConsistent,
  reset_if_expired-IsRolled, reset_if_expired-IsConsistent,
}

pub check_limits-allowed :
    (max_hour max_day : ℤ) (code_max : ℤ × ℤ) (s : RateLimitState) (code : Str)
    → (check_limits max_hour max_day code_max s code).allowed ≡ true
    → (exceeded max_hour s.global_hourly_count ≡ false)
      × (exceeded max_day s.global_daily_count ≡ false)
      × (exceeded code_max.0 (usage code s.hourly_usage) ≡ false)
      × (exceeded code_max.1 (usage code s.daily_usage) ≡ false)
unfolding check_limits
check_limits-allowed max_hour max_day (code_hour, code_day) s code h = ground arith

-- No limit that concerns `code` is reached.
pub record HasRoom (r : RateLimiter) (code : Str) : Type 0 where
  pub hour : Below (get_global_max_per_hour r.config) r.state.global_hourly_count
  pub day : Below (get_global_max_per_day r.config) r.state.global_daily_count
  pub code_hour : Below (get_policy_limits r.policy code).0 (usage code r.state.hourly_usage)
  pub code_day : Below (get_policy_limits r.policy code).1 (usage code r.state.daily_usage)

-- One more use of `code`, seen by the counter of the code `k`.
Tracks-use_of :
    (win : Time → Time) (mono : (a b : Time) → a ≤ b → win a ≤ win b) (limit : Str → ℤ) (code : Str)
    (now : Time) (log : History) (start : Time) (m : List (Str × ℕ)) (k : Str)
    → start ≡ win now
    → Tracks win (limit k) now (times_of k log) start (usage k m)
    → Below (limit code) (usage code m)
    → Tracks win (limit k) now (times_of k ((code, now) ∷ log)) start (usage k (bump code m))
Tracks-use_of win mono limit code now log start m k e t b = elim (Bool-cases (str_eq code k)) [
  | inl same ↦
      let here = subst (λ j. Below (limit j) (usage j m)) ((str_eq_iff code k).0 same) b in
      rw (usage-bump code k m) (rw same (Tracks-use win mono (limit k) now _ start _ e t here))
  | inr other ↦ rw (usage-bump code k m) (rw other t)
]

module _ (zone : Zone) (forward : IsForward zone) where
  HasRoom-roll :
      (now : Time) (r : RateLimiter) (code : Str)
      → HasRoom r code
      → HasRoom (record r { state = reset_if_expired zone now r.state }) code
  HasRoom-roll now r code h =
      let rolled = reset_if_expired-IsRolled zone forward now r.state in
      record {
        hour =
            rw rolled.hourly
              (Below-roll truncate_to_hour (get_global_max_per_hour r.config) now _ _ h.hour);
        day = rw rolled.daily (
            Below-roll (truncate_to_local_day zone) (get_global_max_per_day r.config) now _ _
              h.day);
        code_hour =
            rw (rolled.code_hourly code) (
              Below-roll truncate_to_hour ((get_policy_limits r.policy code).0) now _ _
                h.code_hour);
        code_day = rw (rolled.code_daily code) (
            Below-roll (truncate_to_local_day zone) ((get_policy_limits r.policy code).1) now _ _
              h.code_day);
      }

  pub check-HasRoom :
      (now : Time) (code : Str) (r : RateLimiter)
      → is_disabled r.config ≡ false
      → (check zone now code r).0.allowed ≡ true
      → HasRoom (check zone now code r).1 code
  unfolding check
  check-HasRoom now code r on h =
      let s = reset_if_expired zone now r.state in
      let free =
        check_limits-allowed (get_global_max_per_hour r.config) (get_global_max_per_day r.config)
          (get_policy_limits r.policy code) s code (rw on at h) in
      rw on (record {
        hour = Below-of_exceeded _ _ free.0;
        day = Below-of_exceeded _ _ free.1;
        code_hour = Below-of_exceeded _ _ free.2;
        code_day = Below-of_exceeded _ _ free.3;
      })

  pub record_usage-IsConsistent :
      (last now stamp : Time) (code : Str) (r : RateLimiter) (log : History)
      → last ≤ now
      → HasRoom r code
      → IsConsistent zone forward r last log
      → IsConsistent zone forward (record_usage zone now stamp code r) now ((code, now) ∷ log)
  unfolding record_usage
  record_usage-IsConsistent last now stamp code r log le room c =
      let c' = reset_if_expired-IsConsistent zone forward last now le r log c in
      let room' = HasRoom-roll now r code room in
      let rolled = reset_if_expired-IsRolled zone forward now r.state in
      let hour_now =
        rolled.hour
        ∙ roll_start-eq truncate_to_hour truncate_to_hour_mono _ last now (times log) _ _ le
            c.hourly in
      let day_now =
        rolled.day
        ∙ roll_start-eq (truncate_to_local_day zone) forward _ last now (times log) _ _ le
            c.daily in
      record {
        hourly =
            Tracks-use truncate_to_hour truncate_to_hour_mono _ now _ _ _ hour_now c'.hourly
              room'.hour;
        daily =
            Tracks-use (truncate_to_local_day zone) forward _ now _ _ _ day_now c'.daily room'.day;
        code_hourly = λ k.
            Tracks-use_of truncate_to_hour truncate_to_hour_mono
              (λ j. (get_policy_limits r.policy j).0) code now log _ _ k hour_now (c'.code_hourly k)
              room'.code_hour;
        code_daily = λ k.
            Tracks-use_of (truncate_to_local_day zone) forward
              (λ j. (get_policy_limits r.policy j).1) code now log _ _ k day_now (c'.code_daily k)
              room'.code_day;
      }

  pub check-IsConsistent :
      (last now : Time) (code : Str) (r : RateLimiter) (log : History)
      → last ≤ now
      → IsConsistent zone forward r last log
      → IsConsistent zone forward (check zone now code r).1 now log
  unfolding check
  check-IsConsistent last now code r log le c = elim (Bool-cases (is_disabled r.config)) [
    | inl off ↦ rw off (reset_if_expired-IsConsistent zone forward last now le r log c)
    | inr on ↦ rw on (reset_if_expired-IsConsistent zone forward last now le r log c)
  ]

  -- A fresh limiter has no history.
  pub new_rate_limiter-IsConsistent :
      (config : Option ExceptionRateLimitConfig) (policy : Option ExceptionsConfig) (now : Time)
      → IsConsistent zone forward (new_rate_limiter zone config policy now) now []
  unfolding new_rate_limiter usage lookup
  new_rate_limiter-IsConsistent config policy now = record {
    hourly = Tracks-fresh truncate_to_hour _ now;
    daily = Tracks-fresh (truncate_to_local_day zone) _ now;
    code_hourly = λ k. Tracks-fresh truncate_to_hour _ now;
    code_daily = λ k. Tracks-fresh (truncate_to_local_day zone) _ now;
  }

  pub IsConsistent-later :
      (last now : Time) (r : RateLimiter) (log : History)
      → last ≤ now
      → IsConsistent zone forward r last log
      → IsConsistent zone forward r now log
  IsConsistent-later last now r log le c = record {
    hourly = Tracks-later truncate_to_hour truncate_to_hour_mono _ last now _ _ _ le c.hourly;
    daily = Tracks-later (truncate_to_local_day zone) forward _ last now _ _ _ le c.daily;
    code_hourly = λ k.
        Tracks-later truncate_to_hour truncate_to_hour_mono _ last now _ _ _ le (c.code_hourly k);
    code_daily =
        λ k. Tracks-later (truncate_to_local_day zone) forward _ last now _ _ _ le (c.code_daily k);
  }

-- No operation changes the limiter's configuration.
pub check-config :
    (zone : Zone) (now : Time) (code : Str) (r : RateLimiter)
    → ((check zone now code r).1.config ≡ r.config) × ((check zone now code r).1.policy ≡ r.policy)
unfolding check
check-config zone now code r = elim (Bool-cases (is_disabled r.config)) [
  | inl off ↦ rw off (refl, refl)
  | inr on ↦ rw on (refl, refl)
]

pub record_usage-config :
    (zone : Zone) (now stamp : Time) (code : Str) (r : RateLimiter)
    → ((record_usage zone now stamp code r).config ≡ r.config)
      × ((record_usage zone now stamp code r).policy ≡ r.policy)
unfolding record_usage
record_usage-config zone now stamp code r = (refl, refl)
