-- ===== src/Backup/Pruning.antt =====
-- ApplyRetention of internal/backup/manager.go: removing the snapshots that a policy does not retain.
-- Sizes are those of files, and all of them together fit in an int64.
pub mod Removal
pub mod Laws
use klaudiush.Prelude.{
  ℕ, ◌+◌, Bool, true, false, Option, none, some, List, [], ◌∷◌, ◌++◌, filter, not, length,
  if◌then◌else◌,
}
use klaudiush.Prelude.Bytes.{Str}
use klaudiush.Backup.{Time, Snapshot, Snapshots, SnapshotIndex, list, get_chain, delete_snapshot}
use klaudiush.Backup.Storage.{
  nil_policy, backup_disabled, Outcome, err, ok, Disk, Faults, remove, save_index, load_index,
}
use klaudiush.Backup.Manager.{Manager, Clock}
use klaudiush.Backup.Retention.{
  Chains, RetentionPolicy, RetentionContext, group_by_chain, sum_sizes, should_retain,
}

pub record RetentionResult : Type 0 where
  pub snapshots_removed : ℕ
  pub chains_removed : ℕ
  pub bytes_freed : ℕ
  pub removed_snapshots : List Str

abbrev pub nothing_removed : RetentionResult
nothing_removed = record {
  snapshots_removed = 0;
  chains_removed = 0;
  bytes_freed = 0;
  removed_snapshots = [];
}

-- How many different chains there are.
unfoldable pub count_chains : List Snapshot → ℕ
unfolding group_by_chain
count_chains ss = length (group_by_chain ss)

-- What the loop of removals has so far: the index and the disk, the bytes and the IDs.
pub record Removals : Type 0 where
  pub index : SnapshotIndex
  pub disk : Disk
  pub bytes_freed : ℕ
  pub removed_ids : List Str

module _ (faults : Faults) (now : Time) where
  abbrev pub dropped : Snapshot → Removals → Bool × SnapshotIndex → Disk → Removals
  dropped s p (false, index) disk = record p { disk = disk }
  dropped s p (true, index) disk = record {
    index = index;
    disk = disk;
    bytes_freed = p.bytes_freed + s.size;
    removed_ids = p.removed_ids ++ s.id ∷ [];
  }

  abbrev pub unstored : Snapshot → Removals → Outcome (Unit {0}) × Disk → Removals
  unfolding delete_snapshot
  unstored s p (err e, disk) = p
  unstored s p (ok done, disk) = dropped s p (delete_snapshot now s.id p.index) disk

  -- The removal of the snapshots, each from the storage and then from the index.
  unfoldable pub remove_snapshots : List Snapshot → Removals → Removals
  unfolding remove unstored
  remove_snapshots [] p = p
  remove_snapshots (s ∷ ss) p =
      remove_snapshots ss (unstored s p (remove faults s.storage_path p.disk))

-- `visit` is the order in which the ranges over an index visit its map, `visit_chains` the one in which
-- the evaluation of a snapshot visits the chains, and `now` the clock when a snapshot is evaluated.
module _ (visit : Snapshots → Snapshots) (visit_chains : Snapshot → Chains → Chains)
    (now : Snapshot → Time) (faults : Faults) (clock : Clock) (m : Manager) where
  abbrev pub context_of : List Snapshot → Snapshots → Snapshot → RetentionContext
  context_of all snapshots s = record {
    all_snapshots = all;
    chain = get_chain snapshots s.chain_id;
    total_size = sum_sizes all;
    now = now s;
  }

  unfoldable pub to_remove : RetentionPolicy → Snapshots → List Snapshot
  unfolding should_retain list get_chain sum_sizes
  to_remove policy snapshots =
      filter
        (λ s.
          not (should_retain (visit_chains s) policy s (context_of (list snapshots) snapshots s)))
        (list snapshots)

  abbrev pub reported : (removed : List Snapshot) → Removals → RetentionResult
  reported removed r = record {
    snapshots_removed = length r.removed_ids;
    chains_removed = count_chains removed;
    bytes_freed = r.bytes_freed;
    removed_snapshots = r.removed_ids;
  }

  abbrev pub index_saved :
      RetentionResult → Outcome (Unit {0}) × Disk → Outcome RetentionResult × Disk
  index_saved result (err e, disk) = (err e, disk)
  index_saved result (ok done, disk) = (ok result, disk)

  abbrev pub is_none_removed : List Str → Bool
  is_none_removed [] = true
  is_none_removed (id ∷ ids) = false

  -- From the end of the removals on.
  unfoldable pub removals_saved :
      (removed : List Snapshot) → Removals → Outcome RetentionResult × Disk
  unfolding count_chains save_index
  removals_saved removed r =
      if is_none_removed r.removed_ids
      then (ok (reported removed r), r.disk)
      else index_saved (reported removed r) (save_index faults r.index r.disk)

  -- From the loading of the index on.
  unfoldable pub prune_index :
      RetentionPolicy → Outcome SnapshotIndex → Disk → Outcome RetentionResult × Disk
  unfolding removals_saved remove_snapshots to_remove
  prune_index policy (err e) disk = (err e, disk)
  prune_index policy (ok index) disk =
      let removed = to_remove policy (visit index.snapshots) in
      elim (list (visit index.snapshots)) [
        | [] ↦ (ok nothing_removed, disk)
        | s ∷ ss ↦ removals_saved removed (
            remove_snapshots faults clock.updated removed
              (record { index = index; disk = disk; bytes_freed = 0; removed_ids = [] }))
      ]

  -- `none` is the nil policy.
  unfoldable pub apply_retention : Option RetentionPolicy → Disk → Outcome RetentionResult × Disk
  unfolding prune_index load_index
  apply_retention policy disk =
      if m.is_enabled
      then elim policy [
        | none ↦ (err nil_policy, disk)
        | some p ↦
            if disk.has_root
            then prune_index p (load_index clock.initialized disk.metadata) disk
            else (ok nothing_removed, disk)
      ]
      else (err backup_disabled, disk)
