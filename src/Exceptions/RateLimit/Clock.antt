-- ===== src/Exceptions/RateLimit/Clock.antt =====
-- internal/exceptions/ratelimit.go: the start of an hour and of a local day (truncateToLocalDay), with
-- what Go's package time does for them.
use klaudiush.Prelude.{ℕ, ◌*◌, ◌/◌, ◌≤◌, Bool, false, ◌==◌, if◌then◌else◌}
use klaudiush.Prelude.Int.{ℤ, pos, negsuc, pos_part, ◌+ℤ◌, ◌-ℤ◌}

abbrev pub Time : Type 0
Time = ℕ

-- `now.Truncate(time.Hour)`
abbrev pub hour : ℕ
hour = 3600000000000

unfoldable pub truncate_to_hour : Time → Time
truncate_to_hour t = t / hour * hour

abbrev pub day : ℕ
day = 86400000000000

-- A time zone, `t.Location()`: how many nanoseconds local time is ahead of UTC at an instant.
abbrev pub Zone : Type 0
Zone = Time → ℤ

abbrev is_zero : ℤ → Bool
is_zero (pos n) = n == 0
is_zero (negsuc n) = false

-- `t.Date()`: the midnight, on the local clock, of the local date.
abbrev pub local_midnight : Zone → Time → ℕ
unfolding ◌+ℤ◌
local_midnight zone t = pos_part (pos t +ℤ zone t) / day * day

-- `time.Date` of a midnight on the local clock: the offset is first looked up as if the local clock
-- were UTC, then at the instant that this offset gives.
abbrev pub instant : Zone → ℕ → Time
unfolding ◌-ℤ◌
instant zone midnight =
    let guess = zone midnight in
    if is_zero guess
    then midnight
    else pos_part (pos midnight -ℤ zone (pos_part (pos midnight -ℤ guess)))

unfoldable pub truncate_to_local_day : Zone → Time → Time
unfolding instant local_midnight
truncate_to_local_day zone t = instant zone (local_midnight zone t)

-- In the zone, the start of the local day never goes back.
abbrev pub IsForward : Zone → Type 0
IsForward zone = (a b : Time) → a ≤ b → truncate_to_local_day zone a ≤ truncate_to_local_day zone b
