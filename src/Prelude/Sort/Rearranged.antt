-- ===== src/Prelude/Sort/Rearranged.antt =====
-- Rearrangements of lists: what does not depend on the order of the elements.
use mathlib.Core.List.{Permᴰ}
use mathlib.Core.List.Permᴰ
use mathlib.Core.Path.{◌≡◌, refl, subst, ◌∙◌}
use mathlib.Core.Bool.{Bool}
use mathlib.Core.List.{List, [], ◌∷◌}
use mathlib.Core.Logic.{inl, inr}
use native.Mathlib.Omega.{arith}
use klaudiush.Prelude.Tests.{Bool-cases}
use klaudiush.Prelude.Lists.{filter, length, All}
use klaudiush.Prelude.Sort.{insert_sorted, sort}

module _ {ℓ} {A : Type ℓ} where
  pub length-perm : {xs ys : List A} → Permᴰ xs ys → length xs ≡ length ys
  length-perm Permᴰ.nil = refl
  length-perm (Permᴰ.cons e p) = omega (arith, length-perm p)
  length-perm (Permᴰ.swap e f) = refl
  length-perm (Permᴰ.trans p q) = length-perm p ∙ length-perm q

  filter_swapped :
      (p : A → Bool) (x y : A) (zs : List A) → Permᴰ (filter p (x ∷ y ∷ zs)) (filter p (y ∷ x ∷ zs))
  filter_swapped p x y zs = elim (Bool-cases (p x)) [
    | inl first ↦ elim (Bool-cases (p y)) [
      | inl second ↦ rw (first, second) (Permᴰ.swap refl refl)
      | inr other ↦ rw (first, other) (Permᴰ.refl _)
    ]
    | inr fails ↦ elim (Bool-cases (p y)) [
      | inl second ↦ rw (fails, second) (Permᴰ.refl _)
      | inr other ↦ rw (fails, other) (Permᴰ.refl _)
    ]
  ]

  pub filter-perm :
      (p : A → Bool) {xs ys : List A} → Permᴰ xs ys → Permᴰ (filter p xs) (filter p ys)
  filter-perm p Permᴰ.nil = Permᴰ.nil
  filter-perm p (Permᴰ.cons {a} {b} e q) = elim (Bool-cases (p b)) [
    | inl passes ↦ rw (e, passes) (Permᴰ.cons refl (filter-perm p q))
    | inr fails ↦ rw (e, fails) (filter-perm p q)
  ]
  filter-perm p (Permᴰ.swap {a} {b} {a'} {b'} {l} e f) = rw (e, f) (filter_swapped p b' a' l)
  filter-perm p (Permᴰ.trans q r) = Permᴰ.trans (filter-perm p q) (filter-perm p r)

  pub sort-perm : (le : A → A → Bool) (xs : List A) → Permᴰ (sort le xs) xs
  unfolding sort
  sort-perm le [] = Permᴰ.nil
  sort-perm le (x ∷ xs) =
      Permᴰ.trans (insert_sorted-perm x (sort le xs)) (Permᴰ.cons refl (sort-perm le xs))
    where
      insert_sorted-perm : (x : A) (ys : List A) → Permᴰ (insert_sorted le x ys) (x ∷ ys)
      insert_sorted-perm x [] = Permᴰ.refl _
      insert_sorted-perm x (y ∷ ys) = elim (Bool-cases (le x y)) [
        | inl first ↦ rw first (Permᴰ.refl _)
        | inr later ↦
            rw later
              (Permᴰ.trans (Permᴰ.cons refl (insert_sorted-perm x ys)) (Permᴰ.swap refl refl))
      ]

module _ {ℓ κ} {A : Type ℓ} (P : A → Type κ) where
  pub All-perm : {xs ys : List A} → Permᴰ xs ys → All P xs → All P ys
  All-perm Permᴰ.nil a = tt
  All-perm (Permᴰ.cons e p) (x, xs) = (subst P e x, All-perm p xs)
  All-perm (Permᴰ.swap e f) (x, (y, rest)) = (subst P f y, (subst P e x, rest))
  All-perm (Permᴰ.trans p q) a = All-perm q (All-perm p a)
