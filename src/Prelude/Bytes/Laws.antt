-- ===== src/Prelude/Bytes/Laws.antt =====
-- Laws of the byte strings: equality, the byte-wise order, prefixes and splitting.
use Prim.Native.Nat.{ℕ}
use mathlib.Core.Path.{◌≡◌, refl, ap, sym, ◌∙◌}
use mathlib.Core.Logic.{◌↔◌, inl, inr}
use mathlib.Core.Bool.{true, false}
use mathlib.Core.Option.{Option, none, some}
use klaudiush.Prelude.Tests.{◌==◌, ==_iff, Bool-cases}
use mathlib.Core.List.{[], ◌∷◌, ◌++◌}
use native.Mathlib.Omega.{arith}
use klaudiush.Prelude.Bytes.{Str, str_eq, str_le, has_prefix, split_at, lacks}

pub str_eq_sound : (s t : Str) → str_eq s t ≡ true → s ≡ t
unfolding str_eq
str_eq_sound [] [] h = refl
str_eq_sound [] (y ∷ t) h = cc
str_eq_sound (x ∷ s) [] h = cc
str_eq_sound (x ∷ s) (y ∷ t) h = ground (arith, str_eq_sound s t)

pub str_eq_refl : (s : Str) → str_eq s s ≡ true
unfolding str_eq
str_eq_refl [] = refl
str_eq_refl (x ∷ s) = ground (arith, str_eq_refl s)

pub str_eq_iff : (s t : Str) → (str_eq s t ≡ true) ↔ (s ≡ t)
str_eq_iff s t = (str_eq_sound s t, λ e. rw e (str_eq_refl t))

pub str_le_total : (s t : Str) → str_le s t ≡ false → str_le t s ≡ true
unfolding str_le
str_le_total [] t h = cc
str_le_total (x ∷ s) [] h = refl
str_le_total (x ∷ s) (y ∷ t) h = ground (arith, str_le_total s t)

pub str_le_trans : (s t u : Str) → str_le s t ≡ true → str_le t u ≡ true → str_le s u ≡ true
unfolding str_le
str_le_trans [] t u h k = refl
str_le_trans (x ∷ s) [] u h k = cc
str_le_trans (x ∷ s) (y ∷ t) [] h k = cc
str_le_trans (x ∷ s) (y ∷ t) (z ∷ u) h k = ground (arith, str_le_trans s t u)

pub str_le_antisymm : (s t : Str) → str_le s t ≡ true → str_le t s ≡ true → s ≡ t
unfolding str_le
str_le_antisymm [] [] h k = refl
str_le_antisymm [] (y ∷ t) h k = cc
str_le_antisymm (x ∷ s) [] h k = cc
str_le_antisymm (x ∷ s) (y ∷ t) h k = ground (arith, str_le_antisymm s t)

pub has_prefix-append : (p s : Str) → has_prefix (p ++ s) p ≡ true
unfolding has_prefix
has_prefix-append [] s = refl
has_prefix-append (x ∷ p) s = ground (arith, has_prefix-append p s)

-- Splitting at the first `c` undoes joining by `c`.
pub split_at-append : (c : ℕ) (s t : Str) → lacks c s ≡ true → split_at c (s ++ c ∷ t) ≡ (s, some t)
unfolding split_at
split_at-append c [] t h = ground arith
split_at-append c (x ∷ s) t h = ground (arith, split_at-append c s t)

pub split_at-lacks : (c : ℕ) (s : Str) → lacks c s ≡ true → split_at c s ≡ (s, none)
unfolding split_at
split_at-lacks c [] h = refl
split_at-lacks c (x ∷ s) h = ground (arith, split_at-lacks c s)

-- The text that the two parts of a split make up.
abbrev pub glue : ℕ → Str × Option Str → Str
glue c (before, none) = before
glue c (before, some after) = before ++ c ∷ after

glue_cons : (c x : ℕ) (parts : Str × Option Str) → glue c (x ∷ parts.0, parts.1) ≡ x ∷ glue c parts
glue_cons c x (before, none) = refl
glue_cons c x (before, some after) = refl

pub glue-split_at : (c : ℕ) (s : Str) → glue c (split_at c s) ≡ s
unfolding split_at
glue-split_at c [] = refl
glue-split_at c (x ∷ s) = elim (Bool-cases (x == c)) [
  | inl here ↦ rw here (ap (λ b. b ∷ s) (sym ((==_iff x c).0 here)))
  | inr later ↦ rw later (glue_cons c x (split_at c s) ∙ ap (◌∷◌ x) (glue-split_at c s))
]

pub lacks-append :
    (c : ℕ) (s t : Str) → lacks c s ≡ true → lacks c t ≡ true → lacks c (s ++ t) ≡ true
lacks-append c [] t h k = k
lacks-append c (x ∷ s) t h k = ground (arith, lacks-append c s t)
