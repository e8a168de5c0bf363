-- ===== src/Overrides/Laws.antt =====
-- Which codes the overrides switch off, told from the entries in force.
use klaudiush.Prelude.{
  ℕ, ◌≡◌, refl, ◌↔◌, ◌⊎◌, inl, inr, Bool, true, false, not, Option, none, some, arith,
  if◌then◌else◌,
}
use klaudiush.Prelude.Bytes.{Str}
use klaudiush.Prelude.Maps.{lookup}
use klaudiush.Overrides.Table.{code_to_validator}
use klaudiush.Overrides.{
  OverrideEntry, OverridesConfig, entry_disabled, find_entry, is_active, switched_off, switched_on,
  parent_off, is_disabled, is_explicitly_enabled, is_code_disabled,
}

module _ (parse_time : Str → Option ℕ) (now : ℕ) where
  -- What the entry of a key that is in force says: `some true` switches off, `some false` on.
  abbrev pub in_force : Option (Option OverrideEntry) → Option Bool
  in_force none = none
  in_force (some e) = if is_active parse_time now e then some (entry_disabled e) else none

  abbrev pub setting : Option OverridesConfig → Str → Option Bool
  setting o key = in_force (find_entry o key)

  abbrev says : Bool → Option Bool → Bool
  says b none = false
  says true (some off) = off
  says false (some off) = not off

  switched_off-says :
      (e : Option (Option OverrideEntry)) → switched_off parse_time now e ≡ says true (in_force e)
  switched_off-says none = refl
  switched_off-says (some e) = ground arith

  switched_on-says :
      (e : Option (Option OverrideEntry)) → switched_on parse_time now e ≡ says false (in_force e)
  switched_on-says none = refl
  switched_on-says (some e) = ground arith

  is_disabled-setting :
      (o : Option OverridesConfig) (key : Str)
      → is_disabled parse_time now o key ≡ says true (setting o key)
  unfolding is_disabled
  is_disabled-setting o key = switched_off-says (find_entry o key)

  is_explicitly_enabled-setting :
      (o : Option OverridesConfig) (key : Str)
      → is_explicitly_enabled parse_time now o key ≡ says false (setting o key)
  unfolding is_explicitly_enabled
  is_explicitly_enabled-setting o key = switched_on-says (find_entry o key)

  says_iff : (s : Option Bool) → (says true s ≡ true) ↔ (s ≡ some true)
  says_iff none = (λ h. cc, λ h. cc)
  says_iff (some true) = (λ h. refl, λ h. refl)
  says_iff (some false) = (λ h. cc, λ h. cc)

  -- The entry in force for the validator that a code belongs to switches that off.
  abbrev pub ByParent : Option OverridesConfig → Option Str → Type 0
  ByParent o found = (parent : Str) × (found ≡ some parent) × (setting o parent ≡ some true)

  parent_off_iff :
      (o : Option OverridesConfig) (found : Option Str)
      → (parent_off parse_time now o found ≡ true) ↔ ByParent o found
  parent_off_iff o none = (λ h. cc, λ (p, e, h). cc)
  parent_off_iff o (some parent) = (
    λ h. (parent, refl, (says_iff _).0 (rw is_disabled-setting at h)),
    λ (p, e, h). let same : parent ≡ p = cc e in rw (is_disabled-setting, same) ((says_iff _).1 h),
  )

  decide :
      (off on parent : Bool) (s : Option Bool) (P : Type 0)
      → off ≡ says true s
      → on ≡ says false s
      → (parent ≡ true) ↔ P
      → ((if off then true else if on then false else parent) ≡ true)
        ↔ ((s ≡ some true) ⊎ ((s ≡ none) × P))
  decide off on parent none P a b (to, from) =
      rw (a, b) (λ h. inr (refl, to h), elim [ inl h ↦ cc | inr (h, p) ↦ from p ])
  decide off on parent (some true) P a b c = rw a (λ h. inl refl, λ h. refl)
  decide off on parent (some false) P a b c =
      rw (a, b) (λ h. cc, elim [ inl h ↦ cc | inr (h, p) ↦ cc ])

  -- `IsCodeDisabled` holds exactly if the entry in force for the code switches it off, or none is in
  -- force for the code and the one in force for its validator, by the table, switches that off.
  pub is_code_disabled_iff :
      (o : Option OverridesConfig) (code : Str)
      → (is_code_disabled parse_time now o code ≡ true) ↔ (
          (setting o code ≡ some true)
          ⊎ ((setting o code ≡ none) × ByParent o (lookup code code_to_validator)))
  unfolding is_code_disabled
  is_code_disabled_iff o code =
      decide _ _ (parent_off parse_time now o (lookup code code_to_validator)) (setting o code) _
        (is_disabled-setting o code) (is_explicitly_enabled-setting o code)
        (parent_off_iff o (lookup code code_to_validator))
