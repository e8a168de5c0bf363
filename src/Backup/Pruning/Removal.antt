-- ===== src/Backup/Pruning/Removal.antt =====
-- The loop of ApplyRetention (manager.go) that removes snapshots.
use mathlib.Core.Path.{subst}
use klaudiush.Prelude.{
  ◌≡◌, ◌≢◌, refl, sym, ◌∙◌, inl, inr, Bool, true, false, some, List, [], ◌∷◌, ◌++◌, arith, All,
  Bool-cases, Option-cases,
}
use klaudiush.Prelude.Bytes.{Str, str_eq}
use klaudiush.Prelude.Bytes.Laws.{str_eq_iff}
use klaudiush.Prelude.Maps.{lookup, delete, DistinctKeys}
use klaudiush.Prelude.Maps.Laws.{lookup-delete, delete-DistinctKeys}
use klaudiush.Backup.{Time, Snapshot, Snapshots, SnapshotIndex, delete_snapshot}
use klaudiush.Backup.Storage.{Disk, Metadata, Faults, FilesystemStorage, remove}
use klaudiush.Backup.Consistency.{file_of, IsKept, IsConsistentIndex, file_of_injective}
use klaudiush.Backup.Pruning.{Removals, dropped, unstored, remove_snapshots}

append-one_not_empty : (ids : List Str) (id : Str) → ids ++ id ∷ [] ≢ []
append-one_not_empty [] id h = cc h
append-one_not_empty (i ∷ ids) id h = cc h

module _ (sha256_hex : Str → Str) (f : FilesystemStorage) where
  delete-IsKept :
      (files : List (Str × Str)) (id other : Str) (s : Snapshot)
      → id ≢ other
      → IsKept sha256_hex f files id s
      → IsKept sha256_hex f (delete (file_of f other) files) id s
  delete-IsKept files id other s differs k =
      elim (Bool-cases (str_eq (file_of f other) s.storage_path)) [
        | inl same ↦
            let ids = file_of_injective f other s.id ((str_eq_iff _ _).0 same ∙ k.placed) in
            absurd (differs (k.keyed ∙ sym ids))
        | inr apart ↦ record {
          keyed = k.keyed;
          full = k.full;
          placed = k.placed;
          content = k.content;
          there = lookup-delete (file_of f other) s.storage_path files ∙ simp (apart) k.there;
          hashed = k.hashed;
        }
      ]

  -- The loop of removals, from an index that was read from a disk: the index in memory is consistent
  -- with the files, and is the one that was read as long as nothing has been removed from it.
  pub record IsRemoving (metadata : Metadata) (first : SnapshotIndex) (r : Removals) : Type 0 where
    pub consistent : IsConsistentIndex sha256_hex f r.disk r.index
    pub same_metadata : r.disk.metadata ≡ metadata
    pub unchanged : r.removed_ids ≡ [] → r.index ≡ first

  -- Without its file, a snapshot leaves the rest consistent, in the index without it or if it was never
  -- there.
  without-IsConsistentIndex :
      (disk : Disk) (index : SnapshotIndex) (id : Str) (snapshots : Snapshots)
      → DistinctKeys snapshots
      → ((k : Str) (s : Snapshot)
          → lookup k snapshots ≡ some s
          → (k ≢ id) × (lookup k index.snapshots ≡ some s))
      → (now : Time) → IsConsistentIndex sha256_hex f disk index
      → IsConsistentIndex sha256_hex f
          (record disk { files = delete (file_of f id) disk.files })
          (record index { snapshots = snapshots; updated = now })
  without-IsConsistentIndex disk index id snapshots d rest now i = record {
    rooted = i.rooted;
    distinct = d;
    kept = λ k s l.
        let (other, before) = rest k s l in
        delete-IsKept disk.files k id s other (i.kept k s before);
  }

  deleted-IsConsistentIndex :
      (disk : Disk) (index : SnapshotIndex) (id : Str) (now : Time)
      → IsConsistentIndex sha256_hex f disk index
      → IsConsistentIndex sha256_hex f
          (record disk { files = delete (file_of f id) disk.files })
          (delete_snapshot now id index).1
  unfolding delete_snapshot
  deleted-IsConsistentIndex disk index id now i = elim (Option-cases (lookup id index.snapshots)) [
    | inl absent ↦
        simp (delete_snapshot, absent)
          (without-IsConsistentIndex disk index id index.snapshots i.distinct
            (λ k s l. (λ same. absurd (cc (same, l, absent)), l)) index.updated i)
    | inr (s, found) ↦
        simp (delete_snapshot, found)
          (without-IsConsistentIndex disk index id (delete id index.snapshots)
            (delete-DistinctKeys id index.snapshots i.distinct)
            (λ k s l. (
              ground (arith, l, lookup-delete id k index.snapshots, str_eq_iff id k),
              ground (arith, l, lookup-delete id k index.snapshots),
            ))
            now i)
  ]

  module _ (faults : Faults) (now : Time) (metadata : Metadata) (first : SnapshotIndex) where
    dropped-IsRemoving :
        (s : Snapshot) (r : Removals) (found : Bool × SnapshotIndex) (disk : Disk)
        → disk.metadata ≡ metadata
        → IsConsistentIndex sha256_hex f disk found.1
        → (found.0 ≡ false → found.1 ≡ r.index)
        → IsRemoving metadata first r
        → IsRemoving metadata first (dropped faults now s r found disk)
    dropped-IsRemoving s r (false, index) disk e i same p = record {
      consistent = subst (IsConsistentIndex sha256_hex f disk) (same refl) i;
      same_metadata = e;
      unchanged = p.unchanged;
    }
    dropped-IsRemoving s r (true, index) disk e i same p = record {
      consistent = i;
      same_metadata = e;
      unchanged = λ none_removed. absurd (append-one_not_empty r.removed_ids s.id none_removed);
    }

    delete_snapshot-same :
        (id : Str) (index : SnapshotIndex)
        → (delete_snapshot now id index).0 ≡ false
        → (delete_snapshot now id index).1 ≡ index
    unfolding delete_snapshot
    delete_snapshot-same id index h = elim (Option-cases (lookup id index.snapshots)) [
      | inl absent ↦ simp (delete_snapshot, absent)
      | inr (s, found) ↦ absurd (cc (simp (delete_snapshot, found) at h))
    ]

    unstored-IsRemoving :
        (s : Snapshot) (r : Removals)
        → s.storage_path ≡ file_of f s.id
        → IsRemoving metadata first r
        → IsRemoving metadata first (unstored faults now s r (remove faults s.storage_path r.disk))
    unfolding unstored remove
    unstored-IsRemoving s r placed p = elim (Option-cases (faults.remove s.storage_path)) [
      | inr (cause, refused) ↦ simp (remove, refused) p
      | inl passes ↦ elim (Option-cases (lookup s.storage_path r.disk.files)) [
        | inl absent ↦ simp (remove, passes, absent) p
        | inr (content, there) ↦
            simp (remove, passes, there)
              (dropped-IsRemoving s r (delete_snapshot now s.id r.index) _ p.same_metadata
                (subst
                  (λ path.
                    IsConsistentIndex sha256_hex f
                      (record r.disk { files = delete path r.disk.files })
                      (delete_snapshot now s.id r.index).1)
                  (sym placed) (deleted-IsConsistentIndex r.disk r.index s.id now p.consistent))
                (delete_snapshot-same s.id r.index) p)
      ]
    ]

    pub remove_snapshots-IsRemoving :
        (ss : List Snapshot) (r : Removals)
        → All (λ s. s.storage_path ≡ file_of f s.id) ss
        → IsRemoving metadata first r
        → IsRemoving metadata first (remove_snapshots faults now ss r)
    unfolding remove_snapshots
    remove_snapshots-IsRemoving [] r placed p = p
    remove_snapshots-IsRemoving (s ∷ ss) r (placed, others) p =
        remove_snapshots-IsRemoving ss _ others (unstored-IsRemoving s r placed p)
