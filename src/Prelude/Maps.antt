-- ===== src/Prelude/Maps.antt =====
-- Go maps with string keys as association lists, and values behind pointers that may be nil.
pub mod Laws
pub mod Eviction
use mathlib.Core.Path.{◌≡◌, refl}
use mathlib.Core.Bool.{Bool, true, false, ◌||◌}
use mathlib.Core.Option.{Option, none, some}
use mathlib.Core.List.{List, [], ◌∷◌}
use native.Mathlib.Omega.{arith}
use klaudiush.Prelude.Tests.{if◌then◌else◌}
use klaudiush.Prelude.Bytes.{Str, str_eq}
use klaudiush.Prelude.Bytes.Laws.{str_eq_iff}

-- What a pointer points to, or the default of a nil pointer.
abbrev pub get_or {ℓ} : {A : Type ℓ} → Option A → A → A
get_or none d = d
get_or (some a) d = a

-- `if p == nil { return none }; f(p)`
abbrev pub and_then {ℓ κ} : {A : Type ℓ} {B : Type κ} → Option A → (A → Option B) → Option B
and_then none f = none
and_then (some a) f = f a

abbrev pub is_some {ℓ} : {A : Type ℓ} → Option A → Bool
is_some none = false
is_some (some a) = true

module _ {ℓ} {V : Type ℓ} where
  -- `v, ok := m[k]`
  unfoldable pub lookup : Str → List (Str × V) → Option V
  lookup k [] = none
  lookup k ((j, v) ∷ m) = if str_eq j k then some v else lookup k m

  -- `m[k] = v`
  unfoldable pub insert : Str → V → List (Str × V) → List (Str × V)
  insert k v [] = (k, v) ∷ []
  insert k v ((j, w) ∷ m) = if str_eq j k then (k, v) ∷ m else (j, w) ∷ insert k v m

  pub lookup-insert :
      (k j : Str) (v : V) (m : List (Str × V))
      → lookup j (insert k v m) ≡ (if str_eq k j then some v else lookup j m)
  unfolding lookup insert
  lookup-insert k j v [] = refl
  lookup-insert k j v ((i, w) ∷ m) =
      ground (arith, str_eq_iff k j, str_eq_iff i k, str_eq_iff i j, lookup-insert k j v m)

  -- `delete(m, k)`
  unfoldable pub delete : Str → List (Str × V) → List (Str × V)
  delete k [] = []
  delete k ((j, w) ∷ m) = if str_eq j k then delete k m else (j, w) ∷ delete k m

  abbrev pub has_key : Str → List (Str × V) → Bool
  has_key k [] = false
  has_key k ((j, w) ∷ m) = str_eq j k || has_key k m

  -- A map has a key once.
  abbrev pub DistinctKeys : List (Str × V) → Type 0
  DistinctKeys [] = Unit
  DistinctKeys ((j, w) ∷ m) = (has_key j m ≡ false) × DistinctKeys m
