-- ===== src/Prelude/Maps/Eviction.antt =====
-- Evicting the entries of a map that were seen least recently, as `TrimPatterns` and `TrimSessions`
-- of internal/patterns/store.go do it. A range over a map visits its entries in any order, which is
-- the argument `order`; so the order in which `sort.Slice` leaves entries that were seen at the same
-- time is any, too.
use mathlib.Core.List.{Permᴰ}
use mathlib.Core.List.Permᴰ
use mathlib.Core.Path.{◌≡◌, refl, ap, sym, subst, ◌∙◌}
use mathlib.Core.Bool.{Bool, true, false, not}
use mathlib.Core.List.{List, [], ◌∷◌, ◌++◌}
use mathlib.Core.Logic.{◌⊎◌, inl, inr}
use mathlib.Core.Option.{none, some}
use Prim.Native.Nat.{ℕ, zero, suc, ◌+◌, ◌≤◌}
use native.Mathlib.Omega.{arith}
use klaudiush.Prelude.Tests.{leb, leb→le, Bool-cases}
use klaudiush.Prelude.Lists.{filter, length, take, drop, All}
use klaudiush.Prelude.Bytes.{Str, str_eq}
use klaudiush.Prelude.Bytes.Laws.{str_eq_iff, str_eq_refl}
use klaudiush.Prelude.Sort.{sort, IsSorted}
use klaudiush.Prelude.Sort.Laws.{sort-IsSorted, All-map}
use klaudiush.Prelude.Sort.Rearranged.{length-perm, filter-perm, sort-perm, All-perm}
use klaudiush.Prelude.Maps.{lookup, has_key, delete, DistinctKeys}
use klaudiush.Prelude.Maps.Laws.{tested, lookup-filter}

later_first : (a b : ℕ) → leb a b ≡ false → leb b a ≡ true
later_first a b h = ground arith

leb_trans : (a b c : ℕ) → leb a b ≡ true → leb b c ≡ true → leb a c ≡ true
leb_trans a b c h h' = ground arith

module _ {ℓ} {V : Type ℓ} where
  -- Deletes the keys of all entries of a list.
  unfoldable pub delete_all : List (Str × V) → List (Str × V) → List (Str × V)
  delete_all [] m = m
  delete_all ((k, v) ∷ es) m = delete_all es (delete k m)

  -- `sort.Slice` by `lastSeen.Before`.
  abbrev pub seen_first : (V → ℕ) → (a b : Str × V) → Bool
  seen_first last_seen a b = leb (last_seen a.1) (last_seen b.1)

  unfoldable pub evict : (V → ℕ) → (count : ℕ) (order m : List (Str × V)) → List (Str × V)
  unfolding delete_all
  evict last_seen count order m = delete_all (take count (sort (seen_first last_seen) order)) m

  take-append-drop : (n : ℕ) (xs : List (Str × V)) → xs ≡ take n xs ++ drop n xs
  take-append-drop zero xs = refl
  take-append-drop (suc n) [] = refl
  take-append-drop (suc n) (x ∷ xs) = ap (◌∷◌ x) (take-append-drop n xs)

  -- The entries whose key is none of those.
  abbrev outside : List (Str × V) → (Str × V) → Bool
  outside es (k, v) = not (has_key k es)

  delete-filter :
      (k : Str) (v : V) (m : List (Str × V)) → delete k m ≡ filter (outside ((k, v) ∷ [])) m
  unfolding delete
  delete-filter k v [] = refl
  delete-filter k v ((j, w) ∷ m) =
      ground (arith, str_eq_iff j k, str_eq_iff k j, delete-filter k v m)

  filter-filter-outside :
      (k : Str) (v : V) (es m : List (Str × V))
      → filter (outside es) (filter (outside ((k, v) ∷ [])) m) ≡ filter (outside ((k, v) ∷ es)) m
  filter-filter-outside k v es [] = refl
  filter-filter-outside k v es ((j, w) ∷ m) = ground (arith, filter-filter-outside k v es m)

  filter_all : (m : List (Str × V)) → m ≡ filter (outside []) m
  filter_all [] = refl
  filter_all (e ∷ m) = ap (◌∷◌ e) (filter_all m)

  pub delete_all-filter : (es m : List (Str × V)) → delete_all es m ≡ filter (outside es) m
  unfolding delete_all
  delete_all-filter [] m = filter_all m
  delete_all-filter ((k, v) ∷ es) m =
      delete_all-filter es (delete k m)
      ∙ (ap (filter (outside es)) (delete-filter k v m) ∙ filter-filter-outside k v es m)

  has_key-perm : (k : Str) {xs ys : List (Str × V)} → Permᴰ xs ys → has_key k xs ≡ has_key k ys
  has_key-perm k Permᴰ.nil = refl
  has_key-perm k (Permᴰ.cons e p) = rw (e, has_key-perm k p) refl
  has_key-perm k (Permᴰ.swap e f) = rw (e, f) (ground arith)
  has_key-perm k (Permᴰ.trans p q) = has_key-perm k p ∙ has_key-perm k q

  DistinctKeys-swap :
      (x y : Str × V) (xs : List (Str × V)) → DistinctKeys (x ∷ y ∷ xs) → DistinctKeys (y ∷ x ∷ xs)
  DistinctKeys-swap x y xs (new, (newer, d)) =
      (ground (arith, new, newer, str_eq_iff x.0 y.0, str_eq_iff y.0 x.0), (ground (arith, new), d))

  pub DistinctKeys-perm : {xs ys : List (Str × V)} → Permᴰ xs ys → DistinctKeys xs → DistinctKeys ys
  DistinctKeys-perm Permᴰ.nil d = tt
  DistinctKeys-perm (Permᴰ.cons {a} {b} {l₁} {l₂} e p) (new, d) =
      (rw (← e, ← has_key-perm a.0 p) new, DistinctKeys-perm p d)
  DistinctKeys-perm (Permᴰ.swap {a} {b} {a'} {b'} {l} e f) d =
      DistinctKeys-swap b' a' l
        (subst (λ x. DistinctKeys (x ∷ a' ∷ l)) e (subst (λ y. DistinctKeys (a ∷ y ∷ l)) f d))
  DistinctKeys-perm (Permᴰ.trans p q) d = DistinctKeys-perm q (DistinctKeys-perm p d)

  pub lookup-perm :
      (k : Str) {xs ys : List (Str × V)} → Permᴰ xs ys → DistinctKeys xs → lookup k xs ≡ lookup k ys
  unfolding lookup
  lookup-perm k Permᴰ.nil d = refl
  lookup-perm k (Permᴰ.cons {a} {b} e p) (new, d) = rw (e, lookup-perm k p d) refl
  lookup-perm k (Permᴰ.swap {a} {b} {a'} {b'} {l} e f) (new, (newer, d)) =
      rw (← e, ← f) (ground (arith, new, str_eq_iff a.0 k, str_eq_iff b.0 k, str_eq_iff b.0 a.0))
  lookup-perm k (Permᴰ.trans p q) d = lookup-perm k p d ∙ lookup-perm k q (DistinctKeys-perm p d)

  filter-outside_absent :
      (k : Str) (v : V) (es xs : List (Str × V))
      → has_key k xs ≡ false
      → filter (outside ((k, v) ∷ es)) xs ≡ filter (outside es) xs
  filter-outside_absent k v es [] h = refl
  filter-outside_absent k v es ((j, w) ∷ xs) h =
      ground (arith, h, str_eq_iff j k, str_eq_iff k j, filter-outside_absent k v es xs)

  filter-outside-take :
      (n : ℕ) (xs : List (Str × V)) → DistinctKeys xs → filter (outside (take n xs)) xs ≡ drop n xs
  filter-outside-take zero xs d = sym (filter_all xs)
  filter-outside-take (suc n) [] d = refl
  filter-outside-take (suc n) ((k, v) ∷ xs) (new, d) =
      rw (str_eq_refl k) (filter-outside_absent k v (take n xs) xs new ∙ filter-outside-take n xs d)

  All-drop {κ} :
      (P : (Str × V) → Type κ) (n : ℕ) (xs : List (Str × V)) → All P xs → All P (drop n xs)
  All-drop P zero xs a = a
  All-drop P (suc n) [] a = tt
  All-drop P (suc n) (x ∷ xs) (p, a) = All-drop P n xs a

  taken_first :
      (last_seen : V → ℕ) (n : ℕ) (xs : List (Str × V)) (k : Str) (v : V)
      → IsSorted (seen_first last_seen) xs
      → has_key k (take n xs) ≡ true
      → lookup k xs ≡ some v
      → All (λ e. last_seen v ≤ last_seen e.1) (drop n xs)
  unfolding lookup
  taken_first last_seen zero xs k v s h e = cc
  taken_first last_seen (suc n) [] k v s h e = cc
  taken_first last_seen (suc n) ((j, w) ∷ xs) k v (first, s) h e = elim (Bool-cases (str_eq j k)) [
    | inl same ↦
        let e' : w ≡ v = ground (arith, same, e) in
        rw (← e') (
          All-drop _ n xs (
            All-map (seen_first last_seen) _ _ (λ x le. leb→le (last_seen w) (last_seen x.1) le) xs
              first))
    | inr other ↦
        taken_first last_seen n xs k v s (ground (arith, other, h)) (ground (arith, other, e))
  ]

  -- What is left of an entry: it stays, or it goes and everything that stays was seen no earlier.
  abbrev pub Stays : (V → ℕ) → Str → V → List (Str × V) → Type ℓ
  Stays last_seen k v m' =
      (lookup k m' ≡ some v) ⊎ ((lookup k m' ≡ none) × All (λ e. last_seen v ≤ last_seen e.1) m')

  module _ (last_seen : V → ℕ) (n : ℕ) (order m : List (Str × V)) (any_order : Permᴰ order m)
      (distinct : DistinctKeys m) where
    abbrev sorted : List (Str × V)
    sorted = sort (seen_first last_seen) order

    sorted-perm : Permᴰ sorted m
    sorted-perm = Permᴰ.trans (sort-perm (seen_first last_seen) order) any_order

    sorted-DistinctKeys : DistinctKeys sorted
    sorted-DistinctKeys = DistinctKeys-perm (Permᴰ.symm sorted-perm) distinct

    drop-evict : Permᴰ (drop n sorted) (evict last_seen n order m)
    unfolding evict
    drop-evict =
        rw (delete_all-filter (take n sorted) m, ← filter-outside-take n sorted sorted-DistinctKeys)
          (filter-perm (outside (take n sorted)) sorted-perm)

    length-drop : (xs : List (Str × V)) (k : ℕ) → k ≤ length xs → length (drop k xs) + k ≡ length xs
    length-drop xs zero h = omega arith
    length-drop [] (suc k) h = omega arith
    length-drop (x ∷ xs) (suc k) h = omega (arith, length-drop xs k)

    pub length-evict : n ≤ length m → length (evict last_seen n order m) + n ≡ length m
    length-evict h = omega (
      arith,
      length-perm drop-evict,
      length-perm sorted-perm,
      length-drop sorted n (omega (arith, length-perm sorted-perm)),
    )

    pub evict-Stays :
        (k : Str) (v : V) → lookup k m ≡ some v → Stays last_seen k v (evict last_seen n order m)
    unfolding evict
    evict-Stays k v e =
        let found : lookup k (evict last_seen n order m)
            ≡ tested (outside (take n sorted)) k (some v) =
          rw (delete_all-filter (take n sorted) m) (
            lookup-filter (outside (take n sorted)) k m distinct
            ∙ ap (tested (outside (take n sorted)) k) e) in
        elim (Bool-cases (has_key k (take n sorted))) [
          | inl gone ↦ inr (
            ground (arith, found, gone),
            All-perm _ drop-evict (
                taken_first last_seen n sorted k v
                  (sort-IsSorted (seen_first last_seen)
                    (λ a b h. later_first (last_seen a.1) (last_seen b.1) h)
                    (λ a b c h h'. leb_trans (last_seen a.1) (last_seen b.1) (last_seen c.1) h h')
                    order)
                  gone (lookup-perm k sorted-perm sorted-DistinctKeys ∙ e)),
          )
          | inr kept ↦ inl (ground (arith, found, kept))
        ]
