-- ===== src/Backup/Retention.antt =====
-- internal/backup/retention.go: which snapshots a policy retains.
-- Sizes are those of files, and all of them together fit in an int64.
pub mod Sizes
use klaudiush.Prelude.{
  ℕ, ◌+◌, Bool, true, false, not, Option, none, some, List, [], ◌∷◌, ◌++◌, map, take, leb, ltb, any,
  length, if◌then◌else◌,
}
use klaudiush.Prelude.Bytes.{Str, str_eq}
use klaudiush.Prelude.Int.{ℤ, pos, negsuc, ◌-ℤ◌, leb_ℤ, ltb_ℤ}
use klaudiush.Prelude.Sort.{sort}
use klaudiush.Backup.{Time, Snapshot, Snapshots, SnapshotIndex, list, get_chain, delete_snapshot}
use klaudiush.Backup.Storage.{
  Error, nil_policy, backup_disabled, Outcome, err, ok, Disk, Faults, remove, save_index,
  load_index,
}
use klaudiush.Backup.Manager.{Manager, Clock}

abbrev pub Chains : Type 0
Chains = List (Str × List Snapshot)

-- The policies; a composite one has a list of them.
mutual
  pub data RetentionPolicy : Type 0 where
    count_policy age_policy size_policy : ℤ → RetentionPolicy
    composite_policy : RetentionPolicies → RetentionPolicy

  pub data RetentionPolicies : Type 0 where
    no_policies : RetentionPolicies
    and_policy : RetentionPolicy → RetentionPolicies → RetentionPolicies

pub record RetentionContext : Type 0 where
  pub all_snapshots : List Snapshot
  pub chain : List Snapshot
  pub total_size : ℕ
  pub now : Time

-- `NewCountRetentionPolicy`, `NewAgeRetentionPolicy` and `NewSizeRetentionPolicy`, by their policy:
-- `none` is the error.
abbrev pub positive : (ℤ → RetentionPolicy) → ℤ → Option RetentionPolicy
positive policy limit = if leb_ℤ limit (pos 0) then none else some (policy limit)

-- `chains[s.ChainID] = append(chains[s.ChainID], s)`
unfoldable pub add_to_chain : Snapshot → Chains → Chains
add_to_chain s [] = (s.chain_id, s ∷ []) ∷ []
add_to_chain s ((id, ss) ∷ chains) =
    if str_eq id s.chain_id then (id, ss ++ s ∷ []) ∷ chains else (id, ss) ∷ add_to_chain s chains

unfoldable group_onto : Chains → List Snapshot → Chains
group_onto chains [] = chains
group_onto chains (s ∷ ss) = group_onto (add_to_chain s chains) ss

unfoldable pub group_by_chain : List Snapshot → Chains
unfolding group_onto
group_by_chain ss = group_onto [] ss

abbrev oldest_than : Time → List Snapshot → Time
oldest_than oldest [] = oldest
oldest_than oldest (s ∷ ss) =
    oldest_than (if ltb s.timestamp oldest then s.timestamp else oldest) ss

-- The timestamp of `getOldestSnapshot`, and Go's zero time where there is none.
unfoldable pub oldest_timestamp : List Snapshot → Time
oldest_timestamp [] = 0
oldest_timestamp (s ∷ ss) = oldest_than s.timestamp ss

abbrev newest_than : Time → List Snapshot → Time
newest_than newest [] = newest
newest_than newest (s ∷ ss) =
    newest_than (if ltb newest s.timestamp then s.timestamp else newest) ss

-- The timestamp of `getNewestSnapshot`.
unfoldable pub newest_timestamp : List Snapshot → Time
newest_timestamp [] = 0
newest_timestamp (s ∷ ss) = newest_than s.timestamp ss

abbrev max_int64 : ℕ
max_int64 = 9223372036854775807

-- `now.Sub(t)`: the nanoseconds between them, or the nearest that an int64 holds.
unfoldable pub duration_since : (now t : Time) → ℤ
unfolding ◌-ℤ◌
duration_since now t =
    let d = pos now -ℤ pos t in
    if ltb_ℤ (pos max_int64) d
    then pos max_int64
    else if ltb_ℤ d (negsuc max_int64)
    then negsuc max_int64
    else d

abbrev at_most : ℤ → ℕ
at_most (pos n) = n
at_most (negsuc n) = 0

abbrev newest_first : (Str × List Snapshot) → (Str × List Snapshot) → Bool
newest_first a b = leb (newest_timestamp b.1) (newest_timestamp a.1)

abbrev oldest_first : (Str × List Snapshot) → (Str × List Snapshot) → Bool
oldest_first a b = leb (oldest_timestamp a.1) (oldest_timestamp b.1)

unfoldable pub sum_sizes : List Snapshot → ℕ
sum_sizes [] = 0
sum_sizes (s ∷ ss) = s.size + sum_sizes ss

-- The chains that are removed, of those that are left, at a current size.
unfoldable pub remove_chains : (max_size : ℤ) → (current_size : ℤ) → Chains → List Str
unfolding ◌-ℤ◌ sum_sizes
remove_chains max_size current_size [] = []
remove_chains max_size current_size ((id, ss) ∷ chains) =
    let rest = remove_chains max_size (current_size -ℤ pos (sum_sizes ss)) chains in
    if leb_ℤ current_size max_size then [] else id ∷ rest

-- `visit` is the order in which the ranges visit the map of the chains; chains that compare as equal
-- stay in it.
module _ (visit : Chains → Chains) where
  -- `CountRetentionPolicy.ShouldRetain`
  unfoldable pub retains_count : (max_backups : ℤ) → Snapshot → RetentionContext → Bool
  retains_count max_backups s context =
      let chain_ids =
        map (λ e. e.0) (sort newest_first (visit (group_by_chain context.all_snapshots))) in
      any (λ id. str_eq id s.chain_id) (take (at_most max_backups) chain_ids)

  -- `SizeRetentionPolicy.ShouldRetain`
  unfoldable pub retains_size : (max_size : ℤ) → Snapshot → RetentionContext → Bool
  unfolding remove_chains
  retains_size max_size s context =
      let chains = sort oldest_first (visit (group_by_chain context.all_snapshots)) in
      if leb_ℤ (pos context.total_size) max_size
      then true
      else not (
          any (λ id. str_eq id s.chain_id) (remove_chains max_size (pos context.total_size) chains))

-- `AgeRetentionPolicy.ShouldRetain`
unfoldable pub retains_age : (max_age : ℤ) → RetentionContext → Bool
unfolding duration_since oldest_timestamp
retains_age max_age context =
    leb_ℤ (duration_since context.now (oldest_timestamp context.chain)) max_age

unfoldable mutual
  unfolding retains_count retains_size retains_age

  pub should_retain :
      (visit : Chains → Chains) → RetentionPolicy → Snapshot → RetentionContext → Bool
  should_retain visit (count_policy n) s context = retains_count visit n s context
  should_retain visit (age_policy d) s context = retains_age d context
  should_retain visit (size_policy n) s context = retains_size visit n s context
  should_retain visit (composite_policy policies) s context = all_retain visit policies s context

  pub all_retain :
      (visit : Chains → Chains) → RetentionPolicies → Snapshot → RetentionContext → Bool
  all_retain visit no_policies s context = true
  all_retain visit (and_policy policy policies) s context =
      if should_retain visit policy s context then all_retain visit policies s context else false
