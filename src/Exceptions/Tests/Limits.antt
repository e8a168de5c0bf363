-- ===== src/Exceptions/Tests/Limits.antt =====
-- The limits over checks and over runs of the program, and local days, at concrete times.
use klaudiush.Prelude.{
  ◌*◌, ◌/◌, ◌-◌, ltb, if◌then◌else◌, ◌≡◌, refl, true, false, none, some, [], ◌∷◌, arith, ◌+◌,
}
use klaudiush.Prelude.Bytes.{codes}
use klaudiush.Prelude.Int.{ℤ, pos, ◌+ℤ◌, ◌-ℤ◌}
use klaudiush.Prelude.Unicode.{ascii_only}
use klaudiush.Exceptions.Config.{ExceptionsConfig}
use klaudiush.Exceptions.RateLimit.{
  Time, Zone, IsForward, load, hour, day, truncate_to_local_day, missing, is_disabled, load,
}
use klaudiush.Exceptions.Handler.Invocations.{Invocation, invoke_all, invoke_all-IsWithinLimits}
use klaudiush.Exceptions.Handler.Limits.{Schedule, run, IsWithinLimits, run-IsWithinLimits}
use klaudiush.Exceptions.Tests.{
  handler_code, zone, one_comment, surroundings, check_request, rate_config, handler,
}

-- A zone with one offset for all times.
fixed-IsForward : (offset : ℤ) → IsForward (λ t. offset)
unfolding truncate_to_local_day ◌+ℤ◌ ◌-ℤ◌
fixed-IsForward offset a b h = ground arith

-- A zone that is three hours ahead of UTC and then two, and where the local clock goes from a minute
-- past midnight back to the day before.
abbrev set_back : Zone
set_back t = if ltb t (10 * day - 3 * hour + hour / 60) then pos (3 * hour) else pos (2 * hour)

set_back_test :
    (truncate_to_local_day set_back (10 * day - 3 * hour + hour / 60 - 1) ≡ 10 * day - 2 * hour)
    × (truncate_to_local_day set_back (10 * day - 3 * hour + hour / 60) ≡ 9 * day - 3 * hour)
unfolding truncate_to_local_day ◌+ℤ◌ ◌-ℤ◌
set_back_test = (refl, refl)

-- Two requests in the first hour and one in the second: the second is refused.
abbrev schedule : Schedule
schedule =
    (surroundings 5, check_request)
    ∷ (surroundings 10, check_request)
    ∷ (surroundings 3600000000001, check_request)
    ∷ []

run_test :
    (run ascii_only zone handler [] schedule).0
    ≡ (codes "GIT022", 3600000000002) ∷ (codes "GIT022", 6) ∷ []
unfolding handler_code run truncate_to_local_day
run_test = refl

limits_on : is_disabled (some rate_config) ≡ false
unfolding handler_code
limits_on = refl

run-IsWithinLimits_example :
    IsWithinLimits zone (some rate_config) none (run ascii_only zone handler [] schedule).0
run-IsWithinLimits_example =
    run-IsWithinLimits ascii_only zone (fixed-IsForward (pos hour)) (some rate_config) none
      limits_on 0 handler schedule refl (omega arith)

abbrev exceptions_config : ExceptionsConfig
exceptions_config = record {
  enabled = none;
  policies = [];
  rate_limit = some rate_config;
  audit = none;
  require_explicit_policy = none;
  token_prefix = [];
}

abbrev invocation : Time → Invocation
invocation t = record {
  has_directory = true;
  started_at = t;
  loaded_at = t;
  checks = (surroundings t, check_request) ∷ [];
  mkdir = none;
  marshal = none;
  write = none;
  rename = none;
}

-- Two processes in the first hour: the second one reads that the limit is reached.
invocations_test :
    (invoke_all ascii_only zone
      (some exceptions_config)
      one_comment
      (invocation 5 ∷ invocation 10 ∷ [])
      []
      missing).0
    ≡ (codes "GIT022", 6) ∷ []
unfolding handler_code run truncate_to_local_day invoke_all load
invocations_test = refl

limits_configured : is_disabled exceptions_config.rate_limit ≡ false
unfolding handler_code
limits_configured = refl

invoke_all-IsWithinLimits_example :
    IsWithinLimits zone
      (some rate_config)
      (some exceptions_config)
      (invoke_all ascii_only zone
        (some exceptions_config)
        one_comment
        (invocation 5 ∷ invocation 10 ∷ [])
        []
        missing).0
invoke_all-IsWithinLimits_example =
    invoke_all-IsWithinLimits ascii_only zone (fixed-IsForward (pos hour)) exceptions_config
      limits_configured one_comment 0 (invocation 5 ∷ invocation 10 ∷ []) (omega arith)
      (refl, refl, refl, refl, (refl, refl, refl, refl, tt))
