-- ===== src/Exceptions/RateLimit/History.antt =====
-- A limiter against the history of the exceptions it recorded: each code with its time, the newest
-- first.
use klaudiush.Prelude.{ℕ, ◌+◌, ◌≤◌, ◌≡◌, List, [], ◌∷◌, if◌then◌else◌, arith}
use klaudiush.Prelude.Bytes.{Str, str_eq}
use klaudiush.Prelude.Bytes.Laws.{str_eq_iff}
use klaudiush.Prelude.Maps.{lookup, lookup-insert}
use klaudiush.Exceptions.RateLimit.{
  Time, Zone, IsForward, truncate_to_local_day, truncate_to_hour, RateLimitState, RateLimiter,
  usage, bump, get_global_max_per_hour, get_global_max_per_day, get_policy_limits, reset_if_expired,
}
use klaudiush.Exceptions.RateLimit.Windows.{roll_start, roll_count, Tracks, Tracks-roll}

abbrev pub History : Type 0
History = List (Str × Time)

abbrev pub times : History → List Time
times [] = []
times ((code, t) ∷ log) = t ∷ times log

-- The times at which one code was used.
abbrev pub times_of : Str → History → List Time
times_of k [] = []
times_of k ((code, t) ∷ log) = if str_eq code k then t ∷ times_of k log else times_of k log

pub usage-bump :
    (code k : Str) (m : List (Str × ℕ))
    → usage k (bump code m) ≡ (if str_eq code k then usage k m + 1 else usage k m)
unfolding usage bump
usage-bump code k m = rw lookup-insert (ground (arith, str_eq_iff code k))

pub truncate_to_hour_mono : (a b : Time) → a ≤ b → truncate_to_hour a ≤ truncate_to_hour b
unfolding truncate_to_hour
truncate_to_hour_mono a b h = omega arith

module _ (zone : Zone) (forward : IsForward zone) where
  -- Every counter of the limiter counts the uses in its current window, and in no window, past or
  -- current, was a limit passed.
  pub record IsConsistent (r : RateLimiter) (last : Time) (log : History) : Type 0 where
    pub hourly :
        Tracks truncate_to_hour
          (get_global_max_per_hour r.config)
          last
          (times log)
          r.state.hour_start_time
          r.state.global_hourly_count
    pub daily :
        Tracks
          (truncate_to_local_day zone)
          (get_global_max_per_day r.config)
          last
          (times log)
          r.state.day_start_time
          r.state.global_daily_count
    pub code_hourly :
        (k : Str)
        → Tracks truncate_to_hour
            (get_policy_limits r.policy k).0
            last
            (times_of k log)
            r.state.hour_start_time
            (usage k r.state.hourly_usage)
    pub code_daily :
        (k : Str)
        → Tracks
            (truncate_to_local_day zone)
            (get_policy_limits r.policy k).1
            last
            (times_of k log)
            r.state.day_start_time
            (usage k r.state.daily_usage)

  module _ (now : Time) (s : RateLimitState) where
    -- The state behind the reset, counter by counter.
    pub record IsRolled (t : RateLimitState) : Type 0 where
      pub hour : t.hour_start_time ≡ roll_start truncate_to_hour now s.hour_start_time
      pub day : t.day_start_time ≡ roll_start (truncate_to_local_day zone) now s.day_start_time
      pub hourly :
          t.global_hourly_count
          ≡ roll_count truncate_to_hour now s.hour_start_time s.global_hourly_count
      pub daily :
          t.global_daily_count
          ≡ roll_count (truncate_to_local_day zone) now s.day_start_time s.global_daily_count
      pub code_hourly :
          (k : Str)
          → usage k t.hourly_usage
            ≡ roll_count truncate_to_hour now s.hour_start_time (usage k s.hourly_usage)
      pub code_daily :
          (k : Str)
          → usage k t.daily_usage
            ≡ roll_count (truncate_to_local_day zone) now s.day_start_time (usage k s.daily_usage)

    pub reset_if_expired-IsRolled : IsRolled (reset_if_expired zone now s)
    unfolding reset_if_expired usage lookup
    reset_if_expired-IsRolled = record {
      hour = ground arith;
      day = ground arith;
      hourly = ground arith;
      daily = ground arith;
      code_hourly = λ k. ground arith;
      code_daily = λ k. ground arith;
    }

  module _ (last now : Time) (le : last ≤ now) (r : RateLimiter) (log : History) where
    abbrev pub rolled_limiter : RateLimiter
    rolled_limiter = record r { state = reset_if_expired zone now r.state }

    pub reset_if_expired-IsConsistent :
        IsConsistent r last log → IsConsistent rolled_limiter now log
    reset_if_expired-IsConsistent c =
        let rolled = reset_if_expired-IsRolled now r.state in
        record {
          hourly =
              rw (rolled.hour, rolled.hourly)
                (Tracks-roll truncate_to_hour truncate_to_hour_mono _ last now _ _ _ le c.hourly);
          daily =
              rw (rolled.day, rolled.daily)
                (Tracks-roll (truncate_to_local_day zone) forward _ last now _ _ _ le c.daily);
          code_hourly = λ k.
              rw (rolled.hour, rolled.code_hourly k)
                (Tracks-roll truncate_to_hour truncate_to_hour_mono _ last now _ _ _ le
                  (c.code_hourly k));
          code_daily = λ k.
              rw (rolled.day, rolled.code_daily k)
                (Tracks-roll (truncate_to_local_day zone) forward _ last now _ _ _ le
                  (c.code_daily k));
        }
