-- ===== src/Patterns/Config.antt =====
-- pkg/config/patterns.go: the settings of the failure patterns and their defaults.
use klaudiush.Prelude.{ℕ, zero, suc, ◌*◌, Bool, true, Option, none, some, if◌then◌else◌}
use klaudiush.Prelude.Bytes.{Str, codes, is_empty}
use klaudiush.Prelude.Int.{ℤ, pos, negsuc}
use klaudiush.Prelude.Maps.{get_or}
use klaudiush.Patterns.Advisor.{Advisor}

-- The durations are numbers of nanoseconds.
pub record PatternsConfig : Type 0 where
  pub enabled : Option Bool
  pub min_count : ℤ
  pub max_age : ℤ
  pub max_warnings_per_error : ℤ
  pub max_warnings_total : ℤ
  pub project_data_file : Str
  pub global_data_dir : Str
  pub session_max_age : ℤ
  pub use_seed_data : Option Bool
  pub max_patterns : ℤ
  pub max_sessions : ℤ

-- `if value == 0 { return default }`
abbrev non_zero_or : ℤ → ℤ → ℤ
non_zero_or (pos zero) d = d
non_zero_or (pos (suc n)) d = pos (suc n)
non_zero_or (negsuc n) d = negsuc n

abbrev field_or : Option PatternsConfig → (PatternsConfig → ℤ) → ℤ → ℤ
field_or none field d = d
field_or (some c) field d = non_zero_or (field c) d

abbrev one_day : ℕ
one_day = 86400000000000

unfoldable pub is_enabled : Option PatternsConfig → Bool
is_enabled none = true
is_enabled (some c) = get_or c.enabled true

unfoldable pub get_min_count : Option PatternsConfig → ℤ
get_min_count p = field_or p (λ c. c.min_count) (pos 3)

unfoldable pub get_max_age : Option PatternsConfig → ℤ
get_max_age p = field_or p (λ c. c.max_age) (pos (90 * one_day))

unfoldable pub get_session_max_age : Option PatternsConfig → ℤ
get_session_max_age p = field_or p (λ c. c.session_max_age) (pos one_day)

unfoldable pub get_max_warnings_per_error : Option PatternsConfig → ℤ
get_max_warnings_per_error p = field_or p (λ c. c.max_warnings_per_error) (pos 2)

unfoldable pub get_max_warnings_total : Option PatternsConfig → ℤ
get_max_warnings_total p = field_or p (λ c. c.max_warnings_total) (pos 3)

unfoldable pub get_project_data_file : Option PatternsConfig → Str
get_project_data_file none = codes ".klaudiush/patterns.json"
get_project_data_file (some c) =
    if is_empty c.project_data_file then codes ".klaudiush/patterns.json" else c.project_data_file

unfoldable pub is_use_seed_data : Option PatternsConfig → Bool
is_use_seed_data none = true
is_use_seed_data (some c) = get_or c.use_seed_data true

unfoldable pub get_max_patterns : Option PatternsConfig → ℤ
get_max_patterns p = field_or p (λ c. c.max_patterns) (pos 500)

unfoldable pub get_max_sessions : Option PatternsConfig → ℤ
get_max_sessions p = field_or p (λ c. c.max_sessions) (pos 1000)

unfoldable pub new_advisor : Option PatternsConfig → Advisor
unfolding get_min_count get_max_warnings_per_error get_max_warnings_total
new_advisor cfg = record {
  min_count = get_min_count cfg;
  max_per_error = get_max_warnings_per_error cfg;
  max_total = get_max_warnings_total cfg;
}
