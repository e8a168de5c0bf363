-- ===== src/Prelude/Sort/Laws.antt =====
-- The sort is sorted, for a total and transitive order.
use mathlib.Core.Path.{◌≡◌}
use mathlib.Core.Bool.{Bool, true, false}
use mathlib.Core.List.{List, [], ◌∷◌}
use klaudiush.Prelude.Tests.{Bool-cases}
use mathlib.Core.Logic.{inl, inr}
use klaudiush.Prelude.Lists.{All}
use klaudiush.Prelude.Sort.{insert_sorted, sort, IsSorted}

module _ {ℓ κ} {A : Type ℓ} (le : A → A → Bool) where
  pub All-insert_sorted :
      (P : A → Type κ) (x : A) (xs : List A) → P x → All P xs → All P (insert_sorted le x xs)
  unfolding insert_sorted
  All-insert_sorted P x [] p ps = (p, tt)
  All-insert_sorted P x (y ∷ ys) p (q, qs) = elim (Bool-cases (le x y)) [
    | inl first ↦ rw first (p, (q, qs))
    | inr later ↦ rw later (q, All-insert_sorted P x ys p qs)
  ]

  pub All-sort : (P : A → Type κ) (xs : List A) → All P xs → All P (sort le xs)
  unfolding sort
  All-sort P [] ps = tt
  All-sort P (x ∷ xs) (p, ps) = All-insert_sorted P x (sort le xs) p (All-sort P xs ps)

  pub All-map : (P Q : A → Type κ) (f : (a : A) → P a → Q a) (xs : List A) → All P xs → All Q xs
  All-map P Q f [] ps = tt
  All-map P Q f (x ∷ xs) (p, ps) = (f x p, All-map P Q f xs ps)

module _ {ℓ} {A : Type ℓ} (le : A → A → Bool) (total : (a b : A) → le a b ≡ false → le b a ≡ true)
    (trans : (a b c : A) → le a b ≡ true → le b c ≡ true → le a c ≡ true) where
  insert_sorted-IsSorted :
      (x : A) (xs : List A) → IsSorted le xs → IsSorted le (insert_sorted le x xs)
  unfolding insert_sorted
  insert_sorted-IsSorted x [] s = (tt, tt)
  insert_sorted-IsSorted x (y ∷ ys) (below, s) = elim (Bool-cases (le x y)) [
    | inl first ↦
        rw first ((first, All-map le _ _ (λ z h. trans x y z first h) ys below), (below, s))
    | inr later ↦
        rw later
          (All-insert_sorted le _ x ys (total x y later) below, insert_sorted-IsSorted x ys s)
  ]

  pub sort-IsSorted : (xs : List A) → IsSorted le (sort le xs)
  unfolding sort
  sort-IsSorted [] = tt
  sort-IsSorted (x ∷ xs) = insert_sorted-IsSorted x (sort le xs) (sort-IsSorted xs)
