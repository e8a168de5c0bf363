-- ===== src/Overrides/Tests.antt =====
-- A run of the overrides.
use klaudiush.Prelude.{◌≡◌, refl, ◌↔◌, ◌⊎◌, true, false, Option, none, some, [], ◌∷◌, ℕ}
use klaudiush.Prelude.Bytes.{Str, codes, str_eq}
use klaudiush.Prelude.Maps.{lookup}
use klaudiush.Overrides.{OverridesConfig, is_code_disabled, entry_disabled, is_active}
use klaudiush.Overrides.Table.{code_to_validator}
use klaudiush.Overrides.Laws.{setting, ByParent, is_code_disabled_iff}

abbrev no_times : Str → Option ℕ
no_times s = none

-- Pushes are switched off, but GIT022 is on.
abbrev overrides : OverridesConfig
overrides = record {
  entries =
      (
        codes "git.push",
        some (record {
          disabled = none;
          reason = [];
          disabled_at = [];
          expires_at = [];
          disabled_by = [];
        }),
      )
      ∷ (
        codes "GIT022",
        some (record {
          disabled = some false;
          reason = [];
          disabled_at = [];
          expires_at = [];
          disabled_by = [];
        }),
      )
      ∷ [];
}

is_code_disabled_test :
    (is_code_disabled no_times 0 (some overrides) (codes "GIT007") ≡ true)
    × (is_code_disabled no_times 0 (some overrides) (codes "GIT022") ≡ false)
unfolding codes is_code_disabled lookup str_eq code_to_validator is_active entry_disabled
is_code_disabled_test = (refl, refl)

is_code_disabled_iff_example :
    (is_code_disabled no_times 0 (some overrides) (codes "GIT007") ≡ true) ↔ (
      (setting no_times 0 (some overrides) (codes "GIT007") ≡ some true)
      ⊎ ((setting no_times 0 (some overrides) (codes "GIT007") ≡ none)
          × ByParent no_times 0 (some overrides) (lookup (codes "GIT007") code_to_validator)))
is_code_disabled_iff_example = is_code_disabled_iff no_times 0 (some overrides) (codes "GIT007")
