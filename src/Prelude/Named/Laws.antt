-- ===== src/Prelude/Named/Laws.antt =====
-- Overwriting, deleting and sorting keep the names distinct and change nothing else.
use mathlib.Core.Path.{◌≡◌, refl}
use mathlib.Core.Bool.{Bool, false, ◌||◌}
use mathlib.Core.Logic.{inl, inr}
use mathlib.Core.Option.{none, some}
use mathlib.Core.List.{List, [], ◌∷◌}
use native.Mathlib.Omega.{arith}
use klaudiush.Prelude.Tests.{if◌then◌else◌, Bool-cases}
use klaudiush.Prelude.Bytes.{Str, str_eq}
use klaudiush.Prelude.Bytes.Laws.{str_eq_iff}
use klaudiush.Prelude.Sort.{insert_sorted, sort}
use klaudiush.Prelude.Named.{find_named, put_named, delete_named, has_name, Distinct}

module _ {ℓ} {A : Type ℓ} (name : A → Str) where
  pub find_named-absent :
      (k : Str) (xs : List A) → has_name name k xs ≡ false → find_named name k xs ≡ none
  unfolding find_named
  find_named-absent k [] h = refl
  find_named-absent k (x ∷ xs) h = ground (arith, find_named-absent k xs)

  has_name-put_named :
      (k : Str) (x : A) (xs : List A)
      → has_name name k (put_named name x xs) ≡ (str_eq (name x) k || has_name name k xs)
  unfolding put_named
  has_name-put_named k x [] = refl
  has_name-put_named k x (y ∷ ys) = ground (
    arith,
    str_eq_iff (name y) (name x),
    str_eq_iff (name y) k,
    str_eq_iff (name x) k,
    has_name-put_named k x ys,
  )

  pub put_named-Distinct :
      (x : A) (xs : List A) → Distinct name xs → Distinct name (put_named name x xs)
  unfolding put_named
  put_named-Distinct x [] d = (refl, tt)
  put_named-Distinct x (y ∷ ys) (new, d) = elim (Bool-cases (str_eq (name y) (name x))) [
    | inl same ↦ rw same (ground (arith, new, same, str_eq_iff (name y) (name x)), d)
    | inr other ↦ rw other (
      ground (
        arith,
        new,
        other,
        str_eq_iff (name x) (name y),
        str_eq_iff (name y) (name x),
        has_name-put_named (name y) x ys,
      ),
      put_named-Distinct x ys d,
    )
  ]

  pub find_named-put_named :
      (k : Str) (x : A) (xs : List A)
      → find_named name k (put_named name x xs)
        ≡ (if str_eq (name x) k then some x else find_named name k xs)
  unfolding find_named put_named
  find_named-put_named k x [] = refl
  find_named-put_named k x (y ∷ ys) = ground (
    arith,
    str_eq_iff (name y) (name x),
    str_eq_iff (name y) k,
    str_eq_iff (name x) k,
    find_named-put_named k x ys,
  )

  has_name-delete_named :
      (j k : Str) (xs : List A)
      → has_name name k xs ≡ false
      → has_name name k (delete_named name j xs) ≡ false
  unfolding delete_named
  has_name-delete_named j k [] h = refl
  has_name-delete_named j k (y ∷ ys) h = ground (arith, h, has_name-delete_named j k ys)

  pub delete_named-Distinct :
      (j : Str) (xs : List A) → Distinct name xs → Distinct name (delete_named name j xs)
  unfolding delete_named
  delete_named-Distinct j [] d = tt
  delete_named-Distinct j (y ∷ ys) (new, d) = elim (Bool-cases (str_eq (name y) j)) [
    | inl same ↦ rw same d
    | inr other ↦ rw other (has_name-delete_named j (name y) ys new, delete_named-Distinct j ys d)
  ]

  pub find_named-delete_named :
      (j k : Str) (xs : List A)
      → Distinct name xs
      → find_named name k (delete_named name j xs)
        ≡ (if str_eq j k then none else find_named name k xs)
  unfolding find_named delete_named
  find_named-delete_named j k [] d = ground arith
  find_named-delete_named j k (y ∷ ys) (new, d) = ground (
    arith,
    new,
    str_eq_iff (name y) j,
    str_eq_iff (name y) k,
    str_eq_iff j k,
    find_named-absent k ys,
    find_named-delete_named j k ys d,
  )

  module _ (le : A → A → Bool) where
    has_name-insert_sorted :
        (k : Str) (x : A) (xs : List A)
        → has_name name k (insert_sorted le x xs) ≡ (str_eq (name x) k || has_name name k xs)
    unfolding insert_sorted
    has_name-insert_sorted k x [] = refl
    has_name-insert_sorted k x (y ∷ ys) = ground (arith, has_name-insert_sorted k x ys)

    has_name-sort : (k : Str) (xs : List A) → has_name name k (sort le xs) ≡ has_name name k xs
    unfolding sort
    has_name-sort k [] = refl
    has_name-sort k (x ∷ xs) = rw (has_name-insert_sorted k x (sort le xs), has_name-sort k xs) refl

    insert_sorted-Distinct :
        (x : A) (xs : List A)
        → has_name name (name x) xs ≡ false
        → Distinct name xs
        → Distinct name (insert_sorted le x xs)
    unfolding insert_sorted
    insert_sorted-Distinct x [] h d = (refl, tt)
    insert_sorted-Distinct x (y ∷ ys) h (new, d) = elim (Bool-cases (le x y)) [
      | inl first ↦ rw first (h, (new, d))
      | inr later ↦ rw later (
        ground (
          arith,
          h,
          new,
          str_eq_iff (name x) (name y),
          str_eq_iff (name y) (name x),
          has_name-insert_sorted (name y) x ys,
        ),
        insert_sorted-Distinct x ys (ground (arith, h)) d,
      )
    ]

    pub sort-Distinct : (xs : List A) → Distinct name xs → Distinct name (sort le xs)
    unfolding sort
    sort-Distinct [] d = tt
    sort-Distinct (x ∷ xs) (new, d) =
        insert_sorted-Distinct x (sort le xs) (rw (has_name-sort (name x) xs) new)
          (sort-Distinct xs d)

    find_named-insert_sorted :
        (k : Str) (x : A) (xs : List A)
        → has_name name (name x) xs ≡ false
        → find_named name k (insert_sorted le x xs)
          ≡ (if str_eq (name x) k then some x else find_named name k xs)
    unfolding find_named insert_sorted
    find_named-insert_sorted k x [] h = refl
    find_named-insert_sorted k x (y ∷ ys) h = ground (
      arith,
      str_eq_iff (name y) (name x),
      str_eq_iff (name y) k,
      str_eq_iff (name x) k,
      find_named-insert_sorted k x ys,
    )

    pub find_named-sort :
        (k : Str) (xs : List A)
        → Distinct name xs
        → find_named name k (sort le xs) ≡ find_named name k xs
    unfolding find_named sort
    find_named-sort k [] d = refl
    find_named-sort k (x ∷ xs) (new, d) =
        rw
          (
            find_named-insert_sorted k x (sort le xs) (rw (has_name-sort (name x) xs) new),
            find_named-sort k xs d,
          )
          refl
