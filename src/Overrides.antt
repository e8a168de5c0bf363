-- ===== src/Overrides.antt =====
-- pkg/config/overrides.go: error codes and validators that the user switched off or on, perhaps for
-- a time. `time.Parse` of RFC 3339 and the clock are arguments.
pub mod Table
pub mod Laws
pub mod Tests
use klaudiush.Prelude.{
  ℕ, ◌<◌, Bool, true, false, not, ◌&&◌, ◌||◌, Option, none, some, List, [], ◌∷◌, any, ltb,
  if◌then◌else◌,
}
use klaudiush.Prelude.Bytes.{Str, is_empty, str_eq}
use klaudiush.Prelude.Maps.{get_or, lookup}
use klaudiush.Overrides.Table.{code_to_validator}

pub record OverrideEntry : Type 0 where
  pub disabled : Option Bool
  pub reason : Str
  pub disabled_at : Str
  pub expires_at : Str
  pub disabled_by : Str

-- The map may hold nil pointers.
pub record OverridesConfig : Type 0 where
  pub entries : List (Str × Option OverrideEntry)

-- `isDisabled`
unfoldable pub entry_disabled : Option OverrideEntry → Bool
entry_disabled none = true
entry_disabled (some e) = get_or e.disabled true

-- `IsKnownTarget`
unfoldable pub is_known_target : Str → Bool
is_known_target target =
    any (λ (code, name). str_eq code target || str_eq name target) code_to_validator

abbrev pub find_entry : Option OverridesConfig → Str → Option (Option OverrideEntry)
find_entry none key = none
find_entry (some o) key = lookup key o.entries

module _ (parse_time : Str → Option ℕ) (now : ℕ) where
  abbrev passed : Option ℕ → Bool
  passed none = false
  passed (some t) = ltb t now

  unfoldable pub is_expired : Option OverrideEntry → Bool
  is_expired none = false
  is_expired (some e) = if is_empty e.expires_at then false else passed (parse_time e.expires_at)

  unfoldable pub is_active : Option OverrideEntry → Bool
  unfolding is_expired
  is_active none = false
  is_active (some e) = not (is_expired (some e))

  abbrev pub switched_off : Option (Option OverrideEntry) → Bool
  switched_off none = false
  switched_off (some e) = is_active e && entry_disabled e

  abbrev pub switched_on : Option (Option OverrideEntry) → Bool
  switched_on none = false
  switched_on (some e) = is_active e && not (entry_disabled e)

  unfoldable pub is_disabled : Option OverridesConfig → Str → Bool
  is_disabled o key = switched_off (find_entry o key)

  unfoldable pub is_explicitly_enabled : Option OverridesConfig → Str → Bool
  is_explicitly_enabled o key = switched_on (find_entry o key)

  abbrev pub parent_off : Option OverridesConfig → Option Str → Bool
  parent_off o none = false
  parent_off o (some parent) = is_disabled o parent

  unfoldable pub is_code_disabled : Option OverridesConfig → Str → Bool
  unfolding is_disabled is_explicitly_enabled
  is_code_disabled o code =
      if is_disabled o code
      then true
      else if is_explicitly_enabled o code
      then false
      else parent_off o (lookup code code_to_validator)

  -- The entries of a map that pass a test.
  abbrev select :
      (Option OverrideEntry → Bool)
      → List (Str × Option OverrideEntry)
      → List (Str × Option OverrideEntry)
  select test [] = []
  select test ((key, e) ∷ m) = if test e then (key, e) ∷ select test m else select test m

  abbrev entries_of : Option OverridesConfig → List (Str × Option OverrideEntry)
  entries_of none = []
  entries_of (some o) = o.entries

  unfoldable pub active_entries : Option OverridesConfig → List (Str × Option OverrideEntry)
  unfolding is_active
  active_entries o = select is_active (entries_of o)

  unfoldable pub expired_entries : Option OverridesConfig → List (Str × Option OverrideEntry)
  unfolding is_expired
  expired_entries o = select is_expired (entries_of o)
