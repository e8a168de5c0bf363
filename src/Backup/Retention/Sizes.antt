-- ===== src/Backup/Retention/Sizes.antt =====
-- What SizeRetentionPolicy (retention.go) retains is within its size.
use mathlib.Core.List.{Permᴰ}
use mathlib.Core.List.Permᴰ
use mathlib.Core.Path.{subst}
use klaudiush.Prelude.{
  ◌≡◌, refl, sym, ap, ◌∙◌, inl, inr, ℕ, ◌+◌, ◌≤◌, Bool, true, false, not, ◌||◌, List, [], ◌∷◌, ◌++◌,
  arith, filter, any, Bool-cases, if◌then◌else◌,
}
use klaudiush.Prelude.Bytes.{Str, str_eq}
use klaudiush.Prelude.Bytes.Laws.{str_eq_iff, str_eq_refl}
use klaudiush.Prelude.Int.{ℤ, pos, ◌-ℤ◌, leb_ℤ}
use klaudiush.Prelude.Maps.{has_key, DistinctKeys}
use klaudiush.Prelude.Maps.Eviction.{DistinctKeys-perm}
use klaudiush.Prelude.Sort.{sort}
use klaudiush.Prelude.Sort.Rearranged.{sort-perm}
use klaudiush.Backup.{Snapshot}
use klaudiush.Backup.Retention.{
  Chains, RetentionContext, add_to_chain, group_onto, group_by_chain, sum_sizes, remove_chains,
  retains_size, should_retain, size_policy, oldest_first,
}

module _ (p : Str → Bool) where
  -- The sizes of the chains with an ID that passes a test.
  weight : Chains → ℕ
  weight [] = 0
  weight ((id, ss) ∷ chains) = (if p id then sum_sizes ss else 0) + weight chains

  sum_passing : List Snapshot → ℕ
  sum_passing [] = 0
  sum_passing (s ∷ ss) = (if p s.chain_id then s.size else 0) + sum_passing ss

  sum_sizes-snoc :
      (ss : List Snapshot) (s : Snapshot) → sum_sizes (ss ++ s ∷ []) ≡ sum_sizes ss + s.size
  unfolding sum_sizes
  sum_sizes-snoc [] s = omega arith
  sum_sizes-snoc (t ∷ ss) s = omega (arith, sum_sizes-snoc ss s)

  weight-add_to_chain :
      (s : Snapshot) (chains : Chains)
      → weight (add_to_chain s chains) ≡ (if p s.chain_id then s.size else 0) + weight chains
  unfolding weight add_to_chain sum_sizes
  weight-add_to_chain s [] = ground arith
  weight-add_to_chain s ((id, ss) ∷ chains) = elim (Bool-cases (str_eq id s.chain_id)) [
    | inl same ↦
        simp (same) (ground (arith, (str_eq_iff id s.chain_id).0 same, sum_sizes-snoc ss s))
    | inr other ↦ simp (other) (omega (arith, weight-add_to_chain s chains))
  ]

  weight-group_onto :
      (chains : Chains) (ss : List Snapshot)
      → weight (group_onto chains ss) ≡ weight chains + sum_passing ss
  unfolding weight group_onto sum_passing
  weight-group_onto chains [] = omega arith
  weight-group_onto chains (s ∷ ss) =
      omega (arith, weight-group_onto (add_to_chain s chains) ss, weight-add_to_chain s chains)

  weight-perm : {xs ys : Chains} → Permᴰ xs ys → weight xs ≡ weight ys
  unfolding weight
  weight-perm Permᴰ.nil = refl
  weight-perm (Permᴰ.cons e q) = rw e (omega (arith, weight-perm q))
  weight-perm (Permᴰ.swap e f) = rw (e, f) (omega arith)
  weight-perm (Permᴰ.trans q r) = weight-perm q ∙ weight-perm r

  sum_sizes-filter :
      (ss : List Snapshot) → sum_sizes (filter (λ s. p s.chain_id) ss) ≡ sum_passing ss
  unfolding sum_sizes sum_passing
  sum_sizes-filter [] = refl
  sum_sizes-filter (s ∷ ss) = ground (arith, sum_sizes-filter ss)

sum_sizes-filter-le :
    (p : Snapshot → Bool) (ss : List Snapshot) → sum_sizes (filter p ss) ≤ sum_sizes ss
unfolding sum_sizes
sum_sizes-filter-le p [] = omega arith
sum_sizes-filter-le p (s ∷ ss) = ground (arith, sum_sizes-filter-le p ss)

filter-everything : (ss : List Snapshot) → filter (λ s. true) ss ≡ ss
filter-everything [] = refl
filter-everything (s ∷ ss) = ap (◌∷◌ s) (filter-everything ss)

has_key-add_to_chain :
    (id : Str) (s : Snapshot) (chains : Chains)
    → has_key id (add_to_chain s chains) ≡ (str_eq s.chain_id id || has_key id chains)
unfolding add_to_chain
has_key-add_to_chain id s [] = refl
has_key-add_to_chain id s ((j, ss) ∷ chains) = ground (
  arith,
  str_eq_iff j s.chain_id,
  str_eq_iff j id,
  str_eq_iff s.chain_id id,
  has_key-add_to_chain id s chains,
)

add_to_chain-DistinctKeys :
    (s : Snapshot) (chains : Chains) → DistinctKeys chains → DistinctKeys (add_to_chain s chains)
unfolding add_to_chain
add_to_chain-DistinctKeys s [] d = (refl, tt)
add_to_chain-DistinctKeys s ((j, ss) ∷ chains) (new, d) = elim (Bool-cases (str_eq j s.chain_id)) [
  | inl same ↦ rw same (new, d)
  | inr other ↦ rw other (
    ground (
      arith,
      new,
      other,
      str_eq_iff j s.chain_id,
      str_eq_iff s.chain_id j,
      has_key-add_to_chain j s chains,
    ),
    add_to_chain-DistinctKeys s chains d,
  )
]

group_onto-DistinctKeys :
    (chains : Chains) (ss : List Snapshot)
    → DistinctKeys chains
    → DistinctKeys (group_onto chains ss)
unfolding group_onto
group_onto-DistinctKeys chains [] d = d
group_onto-DistinctKeys chains (s ∷ ss) d =
    group_onto-DistinctKeys (add_to_chain s chains) ss (add_to_chain-DistinctKeys s chains d)

-- That a chain is not among those that are removed.
abbrev outside : List Str → Str → Bool
outside ids chain_id = not (any (λ id. str_eq id chain_id) ids)

weight-outside :
    (id : Str) (ids : List Str) (chains : Chains)
    → has_key id chains ≡ false
    → weight (outside (id ∷ ids)) chains ≡ weight (outside ids) chains
unfolding weight
weight-outside id ids [] new = refl
weight-outside id ids ((j, ss) ∷ chains) new =
    ground (arith, new, str_eq_iff id j, str_eq_iff j id, weight-outside id ids chains)

weight-all : (chains : Chains) → weight (outside []) chains ≡ weight (λ id. true) chains
unfolding weight
weight-all [] = refl
weight-all ((id, ss) ∷ chains) = ap (λ w. sum_sizes ss + w) (weight-all chains)

minus_first : (a b : ℕ) → pos (a + b) -ℤ pos a ≡ pos b
unfolding ◌-ℤ◌
minus_first a b = ground arith

remove_chains-within :
    (max size : ℤ) (id : Str) (ss : List Snapshot) (chains : Chains)
    → leb_ℤ size max ≡ true
    → remove_chains max size ((id, ss) ∷ chains) ≡ []
unfolding remove_chains
remove_chains-within max size id ss chains small = simp (small)

remove_chains-over :
    (max size : ℤ) (id : Str) (ss : List Snapshot) (chains : Chains)
    → leb_ℤ size max ≡ false
    → remove_chains max size ((id, ss) ∷ chains)
      ≡ id ∷ remove_chains max (size -ℤ pos (sum_sizes ss)) chains
unfolding remove_chains
remove_chains-over max size id ss chains large = simp (large)

weight-remove_chains :
    (n : ℕ) (chains : Chains)
    → DistinctKeys chains
    → weight (outside (remove_chains (pos n) (pos (weight (λ id. true) chains)) chains)) chains ≤ n
unfolding weight
weight-remove_chains n [] d = omega arith
weight-remove_chains n ((id, ss) ∷ chains) (new, d) =
    let size = weight (λ i. true) chains in
    let total = pos (sum_sizes ss + size) in
    elim (Bool-cases (leb_ℤ total (pos n))) [
      | inl small ↦
          subst (λ ids. weight (outside ids) ((id, ss) ∷ chains) ≤ n)
            (sym (remove_chains-within (pos n) total id ss chains small))
            (ground (arith, small, weight-all chains))
      | inr large ↦
          let rest = remove_chains (pos n) (pos size) chains in
          subst (λ ids. weight (outside ids) ((id, ss) ∷ chains) ≤ n)
            (sym (
              remove_chains-over (pos n) total id ss chains large
              ∙ ap (λ z. id ∷ remove_chains (pos n) z chains) (minus_first (sum_sizes ss) size)))
            (rw (str_eq_refl id)
              (omega (arith, weight-outside id rest chains new, weight-remove_chains n chains d)))
    ]

module _ (visit : Chains → Chains) (any_order : (chains : Chains) → Permᴰ (visit chains) chains)
    (all : List Snapshot) (n : ℕ) (chain : Snapshot → List Snapshot) (now : Snapshot → ℕ) where
  sorted : Chains
  sorted = sort oldest_first (visit (group_by_chain all))

  abbrev context : Snapshot → RetentionContext
  context s = record {
    all_snapshots = all;
    chain = chain s;
    total_size = sum_sizes all;
    now = now s;
  }

  sorted-perm : Permᴰ sorted (group_by_chain all)
  unfolding sorted
  sorted-perm = Permᴰ.trans (sort-perm oldest_first _) (any_order _)

  weight-sorted : (p : Str → Bool) → weight p sorted ≡ sum_sizes (filter (λ s. p s.chain_id) all)
  unfolding group_by_chain weight
  weight-sorted p =
      omega (arith, weight-perm p sorted-perm, weight-group_onto p [] all, sum_sizes-filter p all)

  sum_sizes-all : sum_sizes all ≡ weight (λ id. true) sorted
  sum_sizes-all = ap sum_sizes (sym (filter-everything all)) ∙ sym (weight-sorted (λ id. true))

  sorted-DistinctKeys : DistinctKeys sorted
  unfolding group_by_chain
  sorted-DistinctKeys =
      DistinctKeys-perm (Permᴰ.symm sorted-perm) (group_onto-DistinctKeys [] all tt)

  sum_sizes-outside :
      sum_sizes
        (filter (λ s. outside (remove_chains (pos n) (pos (sum_sizes all)) sorted) s.chain_id) all)
      ≤ n
  sum_sizes-outside = rw (sum_sizes-all) (
      omega (
        arith,
        weight-sorted (outside (remove_chains (pos n) (pos (weight (λ id. true) sorted)) sorted)),
        weight-remove_chains n sorted sorted-DistinctKeys,
      ))

  -- Where the total size is that of all the snapshots, and the chains are visited in one order: the
  -- snapshots that a size policy retains are not larger than its size together.
  pub sum_sizes-retains_size :
      sum_sizes (filter (λ s. should_retain visit (size_policy (pos n)) s (context s)) all) ≤ n
  unfolding should_retain retains_size sorted
  sum_sizes-retains_size = elim (Bool-cases (leb_ℤ (pos (sum_sizes all)) (pos n))) [
    | inl small ↦ ground (
      arith,
      small,
      sum_sizes-filter-le (λ s. should_retain visit (size_policy (pos n)) s (context s)) all,
    )
    | inr large ↦ simp (retains_size, large) sum_sizes-outside
  ]
