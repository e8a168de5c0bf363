-- ===== src/Prelude/Bytes/Text/Fuel.antt =====
-- The fuel that trimming and printing get is enough.
use Prim.Native.Nat.{ℕ, zero, suc, ◌≤◌, ◌<◌, ◌/◌, ◌%◌, ◌+◌}
use mathlib.Core.Path.{◌≡◌, refl}
use mathlib.Core.Logic.{inl, inr}
use mathlib.Core.Bool.{true, false}
use mathlib.Core.Option.{none, some}
use mathlib.Core.List.{List, [], ◌∷◌}
use native.Mathlib.Omega.{arith}
use klaudiush.Prelude.Tests.{Bool-cases, Option-cases, ltb}
use klaudiush.Prelude.Lists.{All, length, drop}
use klaudiush.Prelude.Bytes.{Str, has_prefix, is_empty}
use klaudiush.Prelude.Bytes.Text.{strip_one, trim_left, digits_from}

length-drop-le : (n : ℕ) (s : Str) → length (drop n s) ≤ length s
length-drop-le zero s = omega arith
length-drop-le (suc n) [] = omega arith
length-drop-le (suc n) (c ∷ s) = omega (arith, length-drop-le n s)

drop_prefix_lt :
    (p s : Str) → is_empty p ≡ false → has_prefix s p ≡ true → length (drop (length p) s) < length s
unfolding has_prefix
drop_prefix_lt [] s given h = cc
drop_prefix_lt (b ∷ p) [] given h = cc
drop_prefix_lt (b ∷ p) (c ∷ s) given h = omega (arith, length-drop-le (length p) s)

strip_one_lt :
    (ps : List Str) (s rest : Str)
    → All (λ p. is_empty p ≡ false) ps
    → strip_one ps s ≡ some rest
    → length rest < length s
unfolding strip_one
strip_one_lt [] s rest given h = cc
strip_one_lt (p ∷ ps) s rest (g, given) h = elim (Bool-cases (has_prefix s p)) [
  | inl here ↦
      let same : drop (length p) s ≡ rest = cc (rw here at h) in
      rw (← same) (drop_prefix_lt p s g here)
  | inr other ↦ strip_one_lt ps s rest given (rw other at h)
]

-- With a round for each byte, trimming ends at a text that has none of the prefixes.
trim_left_done :
    (ps : List Str) (fuel : ℕ) (s : Str)
    → All (λ p. is_empty p ≡ false) ps
    → length s ≤ fuel
    → strip_one ps (trim_left ps fuel s) ≡ none
unfolding trim_left
trim_left_done ps zero s given enough = elim (Option-cases (strip_one ps s)) [
  | inl stuck ↦ stuck
  | inr (rest, more) ↦ absurd (omega (arith, strip_one_lt ps s rest given more))
]
trim_left_done ps (suc fuel) s given enough = elim (Option-cases (strip_one ps s)) [
  | inl stuck ↦ simp (trim_left, stuck) refl
  | inr (rest, more) ↦
      simp (trim_left, more)
        (trim_left_done ps fuel rest given (omega (arith, strip_one_lt ps s rest given more)))
]

-- One round more than the number changes nothing.
digits_from_fuel :
    (fuel n : ℕ) (acc : Str) → n < fuel → digits_from (suc fuel) n acc ≡ digits_from fuel n acc
unfolding digits_from
digits_from_fuel zero n acc h = absurd (omega arith)
digits_from_fuel (suc fuel) n acc h = elim (Bool-cases (ltb n 10)) [
  | inl last ↦ ground (arith, last)
  | inr more ↦
      let fewer : n / 10 < fuel = ground (arith, h, more) in
      ground (arith, more, digits_from_fuel fuel (n / 10) ((48 + n % 10) ∷ acc) fewer)
]
