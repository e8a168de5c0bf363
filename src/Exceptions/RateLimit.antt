-- ===== src/Exceptions/RateLimit.antt =====
-- internal/exceptions/ratelimit.go and the state of types.go: counters for each error code and for
-- all codes, in a window of an hour and a window of a day.
-- A time is the number of nanoseconds since Go's zero time. The mutex makes each method atomic,
-- so a method is a function on the limiter. A method that reads the clock reads it in
-- `resetIfExpiredLocked` first, and that reading is the argument `now`.
mod Clock
pub mod Windows
pub mod History
pub mod Steps
unfoldable pub use Clock.*
use klaudiush.Prelude.{
  ℕ, ◌+◌, ◌*◌, ◌/◌, ◌≤◌, Bool, true, false, not, ◌&&◌, Option, none, some, List, [], ◌∷◌, ◌++◌, ltb,
  leb, ◌==◌, if◌then◌else◌,
}
use klaudiush.Prelude.Bytes.{Str, codes}
use klaudiush.Prelude.Int.{ℤ, pos, negsuc, pos_part, ◌+ℤ◌, ◌-ℤ◌, ltb_ℤ, leb_ℤ}
use klaudiush.Prelude.Maps.{get_or, lookup, insert}
use klaudiush.Exceptions.Config.{
  ExceptionsConfig, ExceptionRateLimitConfig, get_policy, policy_max_per_hour, policy_max_per_day,
  is_rate_limit_enabled, get_max_per_hour, get_max_per_day, default_rate_limit_per_hour,
  default_rate_limit_per_day,
}

pub record RateLimitState : Type 0 where
  pub hourly_usage : List (Str × ℕ)
  pub daily_usage : List (Str × ℕ)
  pub global_hourly_count : ℕ
  pub global_daily_count : ℕ
  pub hour_start_time : Time
  pub day_start_time : Time
  pub last_updated : Time

pub record RateLimiter : Type 0 where
  pub state : RateLimitState
  pub config : Option ExceptionRateLimitConfig
  pub policy : Option ExceptionsConfig

-- What `os.ReadFile` and `json.Unmarshal` make of the state file. A map may be null in it.
pub data StateFile : Type 0 where
  missing unparsable : StateFile
  unreadable : Str → StateFile
  parsed : (hourly daily : Option (List (Str × ℕ))) → RateLimitState → StateFile

pub record CheckResult : Type 0 where
  pub allowed : Bool
  pub reason : Str
  pub global_hourly_remaining : ℤ
  pub global_daily_remaining : ℤ
  pub error_code_hourly_remaining : ℤ
  pub error_code_daily_remaining : ℤ

-- `m[k]` of a map of counters
unfoldable pub usage : Str → List (Str × ℕ) → ℕ
usage code m = get_or (lookup code m) 0

-- `m[k]++`
unfoldable pub bump : Str → List (Str × ℕ) → List (Str × ℕ)
unfolding usage
bump code m = insert code (usage code m + 1) m

-- The limiter's getters read its configuration only, and take that.
unfoldable pub get_global_max_per_hour : Option ExceptionRateLimitConfig → ℤ
get_global_max_per_hour config = elim config [
  | none ↦ default_rate_limit_per_hour
  | some c ↦ get_max_per_hour (some c)
]

unfoldable pub get_global_max_per_day : Option ExceptionRateLimitConfig → ℤ
get_global_max_per_day config = elim config [
  | none ↦ default_rate_limit_per_day
  | some c ↦ get_max_per_day (some c)
]

unfoldable pub get_policy_limits : Option ExceptionsConfig → Str → ℤ × ℤ
get_policy_limits policy error_code = elim (get_policy policy error_code) [
  | none ↦ (pos 0, pos 0)
  | some p ↦ (policy_max_per_hour (some p), policy_max_per_day (some p))
]

-- `limit > 0 && count >= limit`
unfoldable pub exceeded : ℤ → ℕ → Bool
exceeded limit count = ltb_ℤ (pos 0) limit && leb_ℤ limit (pos count)

-- `max(0, limit-count)`
unfoldable pub left_at_least_zero : ℤ → ℕ → ℤ
unfolding ◌-ℤ◌
left_at_least_zero limit count =
    if ltb_ℤ (limit -ℤ pos count) (pos 0) then pos 0 else limit -ℤ pos count

-- `remaining := -1; if limit > 0 { remaining = limit - count }`
unfoldable pub remaining : ℤ → ℕ → ℤ
unfolding ◌-ℤ◌
remaining limit count = if ltb_ℤ (pos 0) limit then limit -ℤ pos count else negsuc 0

unfoldable pub denied : Str → ℤ → ℤ → ℤ → ℤ → CheckResult
denied reason global_hour global_day code_hour code_day = record {
  allowed = false;
  reason = reason;
  global_hourly_remaining = global_hour;
  global_daily_remaining = global_day;
  error_code_hourly_remaining = code_hour;
  error_code_daily_remaining = code_day;
}

-- The part of `Check` behind the reset and the test that limiting is enabled.
unfoldable pub check_limits :
    (max_hour max_day : ℤ) (code_max : ℤ × ℤ) → RateLimitState → Str → CheckResult
unfolding denied left_at_least_zero remaining
check_limits max_hour max_day (code_hour, code_day) s code =
    if exceeded max_hour s.global_hourly_count
    then denied (codes "global hourly limit exceeded") (pos 0)
        (left_at_least_zero max_day s.global_daily_count) (pos 0) (pos 0)
    else if exceeded max_day s.global_daily_count
    then denied (codes "global daily limit exceeded")
        (left_at_least_zero max_hour s.global_hourly_count) (pos 0) (pos 0) (pos 0)
    else if exceeded code_hour (usage code s.hourly_usage)
    then denied (codes "hourly limit exceeded for " ++ code)
        (left_at_least_zero max_hour s.global_hourly_count)
        (left_at_least_zero max_day s.global_daily_count) (pos 0)
        (left_at_least_zero code_day (usage code s.daily_usage))
    else if exceeded code_day (usage code s.daily_usage)
    then denied (codes "daily limit exceeded for " ++ code)
        (left_at_least_zero max_hour s.global_hourly_count)
        (left_at_least_zero max_day s.global_daily_count)
        (left_at_least_zero code_hour (usage code s.hourly_usage)) (pos 0)
    else record {
      allowed = true;
      reason = codes "within rate limits";
      global_hourly_remaining = remaining max_hour s.global_hourly_count;
      global_daily_remaining = remaining max_day s.global_daily_count;
      error_code_hourly_remaining = remaining code_hour (usage code s.hourly_usage);
      error_code_daily_remaining = remaining code_day (usage code s.daily_usage);
    }

abbrev pub unlimited : CheckResult
unlimited = record {
  allowed = true;
  reason = codes "rate limiting disabled";
  global_hourly_remaining = negsuc 0;
  global_daily_remaining = negsuc 0;
  error_code_hourly_remaining = negsuc 0;
  error_code_daily_remaining = negsuc 0;
}

-- `r.config != nil && !r.config.IsRateLimitEnabled()`
unfoldable pub is_disabled : Option ExceptionRateLimitConfig → Bool
is_disabled config = elim config [ none ↦ false | some c ↦ not (is_rate_limit_enabled (some c)) ]

-- The two resets of `resetIfExpiredLocked`.
unfoldable pub reset_hour : Time → RateLimitState → RateLimitState
reset_hour current s =
    if ltb s.hour_start_time current
    then record s { global_hourly_count = 0; hourly_usage = []; hour_start_time = current }
    else s

unfoldable pub reset_day : Time → RateLimitState → RateLimitState
reset_day current s =
    if ltb s.day_start_time current
    then record s { global_daily_count = 0; daily_usage = []; day_start_time = current }
    else s

-- The data of the local time zone is an argument.
module _ (zone : Zone) where
  unfoldable pub reset_if_expired : Time → RateLimitState → RateLimitState
  unfolding reset_hour reset_day
  reset_if_expired now s =
      reset_day (truncate_to_local_day zone now) (reset_hour (truncate_to_hour now) s)

  -- `NewRateLimitState` with the window times of the limiter's clock.
  unfoldable pub new_rate_limit_state : Time → RateLimitState
  new_rate_limit_state now = record {
    hourly_usage = [];
    daily_usage = [];
    global_hourly_count = 0;
    global_daily_count = 0;
    hour_start_time = truncate_to_hour now;
    day_start_time = truncate_to_local_day zone now;
    last_updated = now;
  }

  unfoldable pub new_rate_limiter :
      Option ExceptionRateLimitConfig → Option ExceptionsConfig → Time → RateLimiter
  unfolding new_rate_limit_state
  new_rate_limiter rate_cfg policy_cfg now = record {
    state = new_rate_limit_state now;
    config = rate_cfg;
    policy = policy_cfg;
  }

  unfoldable pub check : Time → Str → RateLimiter → CheckResult × RateLimiter
  check now code r =
      let r' = record r { state = reset_if_expired now r.state } in
      if is_disabled r.config then (unlimited, r') else (
        check_limits (get_global_max_per_hour r.config) (get_global_max_per_day r.config)
            (get_policy_limits r.policy code) r'.state code,
        r',
      )

  -- `last` is the second reading of the clock.
  unfoldable pub record_usage : (now last : Time) → Str → RateLimiter → RateLimiter
  record_usage now last code r =
      let s = reset_if_expired now r.state in
      record r {
        state = record s {
          global_hourly_count = s.global_hourly_count + 1;
          global_daily_count = s.global_daily_count + 1;
          hourly_usage = bump code s.hourly_usage;
          daily_usage = bump code s.daily_usage;
          last_updated = last;
        };
      }

  unfoldable pub reset : Time → RateLimiter → RateLimiter
  unfolding new_rate_limit_state
  reset now r = record r { state = new_rate_limit_state now }

  -- `Load`: the error, if any, and the limiter.
  unfoldable pub load : Time → StateFile → RateLimiter → Option Str × RateLimiter
  load now missing r = (none, r)
  load now (unreadable e) r = (some (codes "reading state file: " ++ e), r)
  load now unparsable r = (none, r)
  load now (parsed hourly daily s) r =
      let filled = record s { hourly_usage = get_or hourly []; daily_usage = get_or daily [] } in
      (none, record r { state = reset_if_expired now filled })

-- `Save` writes a copy of the state to a second file and renames that over the state file. The
-- errors of `json.MarshalIndent` and of the three calls of the file system are arguments; the last
-- value is the state file.
unfoldable pub save :
    (mkdir marshal write rename : Option Str) → RateLimiter → StateFile → Option Str × StateFile
save (some e) marshal write rename r file = (some (codes "creating state directory: " ++ e), file)
save none (some e) write rename r file = (some (codes "marshaling state: " ++ e), file)
save none none (some e) rename r file = (some (codes "writing temp state file: " ++ e), file)
save none none none (some e) r file = (some (codes "renaming state file: " ++ e), file)
save none none none none r file =
    (none, parsed (some r.state.hourly_usage) (some r.state.daily_usage) r.state)
