-- ===== src/Prelude/Maps/Laws.antt =====
-- Deleting and filtering entries of a map.
use mathlib.Core.Path.{◌≡◌, refl, ◌∙◌}
use mathlib.Core.Bool.{Bool, true, false, ◌||◌}
use mathlib.Core.Option.{Option, none, some}
use mathlib.Core.List.{List, [], ◌∷◌}
use mathlib.Core.Logic.{inl, inr}
use native.Mathlib.Omega.{arith}
use klaudiush.Prelude.Tests.{if◌then◌else◌, Bool-cases}
use klaudiush.Prelude.Lists.{filter, All}
use klaudiush.Prelude.Bytes.{Str, str_eq}
use klaudiush.Prelude.Bytes.Laws.{str_eq_iff, str_eq_refl}
use klaudiush.Prelude.Maps.{lookup, lookup-insert, insert, delete, has_key, DistinctKeys}

module _ {ℓ} {V : Type ℓ} where
  pub lookup-insert_same : (k : Str) (v : V) (m : List (Str × V)) → lookup k (insert k v m) ≡ some v
  lookup-insert_same k v m = lookup-insert k k v m ∙ simp (str_eq_refl k)

  pub lookup-insert_other :
      (k j : Str) (v : V) (m : List (Str × V))
      → str_eq k j ≡ false
      → lookup j (insert k v m) ≡ lookup j m
  lookup-insert_other k j v m other = lookup-insert k j v m ∙ simp (other)

  pub inserted_unique :
      (k j : Str) (v w : V) (m : List (Str × V))
      → str_eq k j ≡ true
      → lookup j (insert k v m) ≡ some w
      → v ≡ w
  inserted_unique k j v w m same l = cc (lookup-insert k j v m, same, l)

  pub lookup-delete :
      (k j : Str) (m : List (Str × V))
      → lookup j (delete k m) ≡ (if str_eq k j then none else lookup j m)
  unfolding lookup delete
  lookup-delete k j [] = ground arith
  lookup-delete k j ((i, w) ∷ m) =
      ground (arith, str_eq_iff k j, str_eq_iff i k, str_eq_iff i j, lookup-delete k j m)

  pub lookup_absent : (k : Str) (m : List (Str × V)) → has_key k m ≡ false → lookup k m ≡ none
  unfolding lookup
  lookup_absent k [] h = refl
  lookup_absent k ((j, w) ∷ m) h = ground (arith, h, lookup_absent k m)

  has_key-insert :
      (k j : Str) (v : V) (m : List (Str × V))
      → has_key j (insert k v m) ≡ (str_eq k j || has_key j m)
  unfolding insert
  has_key-insert k j v [] = refl
  has_key-insert k j v ((i, w) ∷ m) =
      ground (arith, str_eq_iff k j, str_eq_iff i k, str_eq_iff i j, has_key-insert k j v m)

  pub insert-DistinctKeys :
      (k : Str) (v : V) (m : List (Str × V)) → DistinctKeys m → DistinctKeys (insert k v m)
  unfolding insert
  insert-DistinctKeys k v [] d = (refl, tt)
  insert-DistinctKeys k v ((i, w) ∷ m) (new, d) = elim (Bool-cases (str_eq i k)) [
    | inl same ↦ rw same (ground (arith, new, same, str_eq_iff i k), d)
    | inr other ↦ rw other (
      ground (arith, new, other, str_eq_iff k i, str_eq_iff i k, has_key-insert k i v m),
      insert-DistinctKeys k v m d,
    )
  ]

  has_key-filter :
      (p : (Str × V) → Bool) (k : Str) (m : List (Str × V))
      → has_key k m ≡ false
      → has_key k (filter p m) ≡ false
  has_key-filter p k [] h = refl
  has_key-filter p k ((j, w) ∷ m) h = ground (arith, h, has_key-filter p k m)

  pub filter-DistinctKeys :
      (p : (Str × V) → Bool) (m : List (Str × V)) → DistinctKeys m → DistinctKeys (filter p m)
  filter-DistinctKeys p [] d = tt
  filter-DistinctKeys p ((j, w) ∷ m) (new, d) = elim (Bool-cases (p (j, w))) [
    | inl passes ↦ rw passes (has_key-filter p j m new, filter-DistinctKeys p m d)
    | inr fails ↦ rw fails (filter-DistinctKeys p m d)
  ]

  -- What a map holds at a key, if it passes a test.
  abbrev pub tested : ((Str × V) → Bool) → Str → Option V → Option V
  tested p k none = none
  tested p k (some v) = if p (k, v) then some v else none

  -- A key is found after filtering if its entry passes.
  pub lookup-filter :
      (p : (Str × V) → Bool) (k : Str) (m : List (Str × V))
      → DistinctKeys m
      → lookup k (filter p m) ≡ tested p k (lookup k m)
  unfolding lookup
  lookup-filter p k [] d = refl
  lookup-filter p k ((j, w) ∷ m) (new, d) = elim (Bool-cases (str_eq j k)) [
    | inl same ↦
        let e : j ≡ k = (str_eq_iff j k).0 same in
        let gone : lookup k (filter p m) ≡ none =
          lookup_absent k (filter p m) (rw (← e) (has_key-filter p j m new)) in
        elim (Bool-cases (p (j, w))) [
          | inl passes ↦ rw (passes, same) (let h = rw e at passes in rw h refl)
          | inr fails ↦ rw (fails, same) (let h = rw e at fails in rw h gone)
        ]
    | inr other ↦ elim (Bool-cases (p (j, w))) [
      | inl passes ↦ rw (passes, other) (lookup-filter p k m d)
      | inr fails ↦ rw (fails, other) (lookup-filter p k m d)
    ]
  ]

  has_key-delete :
      (k j : Str) (m : List (Str × V)) → has_key j m ≡ false → has_key j (delete k m) ≡ false
  unfolding delete
  has_key-delete k j [] h = refl
  has_key-delete k j ((i, w) ∷ m) h = ground (arith, h, has_key-delete k j m)

  pub delete-DistinctKeys :
      (k : Str) (m : List (Str × V)) → DistinctKeys m → DistinctKeys (delete k m)
  unfolding delete
  delete-DistinctKeys k [] d = tt
  delete-DistinctKeys k ((j, w) ∷ m) (new, d) = elim (Bool-cases (str_eq j k)) [
    | inl same ↦ rw same (delete-DistinctKeys k m d)
    | inr other ↦ rw other (has_key-delete k j m new, delete-DistinctKeys k m d)
  ]

  -- What holds of all that a lookup finds holds of all the entries.
  pub All-lookup {κ} :
      {P : V → Type κ} (m : List (Str × V))
      → DistinctKeys m
      → ((k : Str) (v : V) → lookup k m ≡ some v → P v)
      → All (λ e. P e.1) m
  unfolding lookup
  All-lookup [] d p = tt
  All-lookup ((j, w) ∷ m) (new, d) p = (
    p j w (simp (str_eq_refl j)),
    All-lookup m d (λ k v l. p k v (ground (arith, l, str_eq_iff j k, lookup_absent j m new))),
  )
