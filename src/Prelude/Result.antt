-- ===== src/Prelude/Result.antt =====
-- A Go result with an error, where the error is its text.
use mathlib.Core.Path.{◌≡◌, refl}
use mathlib.Core.Logic.{◌⊎◌, inl, inr}
use mathlib.Core.List.{List, [], ◌∷◌}
use klaudiush.Prelude.Bytes.{Str}

pub data Result {ℓ} (V : Type ℓ) : Type ℓ where
  err : Str → Result V
  ok : V → Result V

module _ {ℓ κ} {V : Type ℓ} {W : Type κ} where
  -- `if err != nil { return err }`, and then the rest.
  infixl 5 ◌>>=◌
  abbrev pub ◌>>=◌ : Result V → (V → Result W) → Result W
  err text >>= rest = err text
  ok v >>= rest = rest v

module _ {ℓ κ} {A : Type ℓ} {B : Type κ} where
  -- A loop that collects results and returns the first error.
  unfoldable pub collect : (A → Result B) → List A → Result (List B)
  collect f [] = ok []
  collect f (x ∷ xs) = do let y = (← f x); let ys = (← collect f xs); ok (y ∷ ys)

-- To split on a computed result and keep the equation.
pub Result-cases {ℓ} :
    {A : Type ℓ} (r : Result A) → ((a : A) × (r ≡ ok a)) ⊎ ((e : Str) × (r ≡ err e))
Result-cases (ok a) = inl (a, refl)
Result-cases (err e) = inr (e, refl)
