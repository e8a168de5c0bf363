-- ===== src/Prelude/Named.antt =====
-- Slices whose elements have a name: search, overwriting and deletion by name, as loops do them.
pub mod Laws
use mathlib.Core.Path.{◌≡◌}
use mathlib.Core.Bool.{Bool, true, false}
use mathlib.Core.Option.{Option, none, some}
use mathlib.Core.List.{List, [], ◌∷◌}
use klaudiush.Prelude.Tests.{if◌then◌else◌}
use klaudiush.Prelude.Lists.{any}
use klaudiush.Prelude.Bytes.{Str, str_eq}

module _ {ℓ} {A : Type ℓ} (name : A → Str) where
  -- The first element of that name.
  unfoldable pub find_named : Str → List A → Option A
  find_named k [] = none
  find_named k (x ∷ xs) = if str_eq (name x) k then some x else find_named k xs

  -- Overwrites the first element of the same name, or appends.
  unfoldable pub put_named : A → List A → List A
  put_named x [] = x ∷ []
  put_named x (y ∷ ys) = if str_eq (name y) (name x) then x ∷ ys else y ∷ put_named x ys

  -- Deletes the first element of that name.
  unfoldable pub delete_named : Str → List A → List A
  delete_named k [] = []
  delete_named k (y ∷ ys) = if str_eq (name y) k then ys else y ∷ delete_named k ys

  abbrev pub has_name : Str → List A → Bool
  has_name k xs = any (λ x. str_eq (name x) k) xs

  -- No two elements have the same name.
  abbrev pub Distinct : List A → Type 0
  Distinct [] = Unit
  Distinct (x ∷ xs) = (has_name (name x) xs ≡ false) × Distinct xs
