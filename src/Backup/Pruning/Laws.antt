-- ===== src/Backup/Pruning/Laws.antt =====
-- ApplyRetention (manager.go) keeps the index and the stored files together.
use mathlib.Core.List.{Permᴰ}
use mathlib.Core.List.Permᴰ
use mathlib.Core.Path.{subst}
use klaudiush.Prelude.{
  ◌≡◌, ◌≢◌, refl, sym, ap, ◌∙◌, ◌⊎◌, inl, inr, Bool, true, Option, List, [], ◌∷◌, filter, arith,
  All, Bool-cases, Option-cases,
}
use klaudiush.Prelude.Bytes.{Str}
use klaudiush.Prelude.Maps.Laws.{All-lookup}
use klaudiush.Prelude.Sort.Rearranged.{All-perm, length-perm}
use klaudiush.Backup.{Time, Snapshot, Snapshots, SnapshotIndex, list, new_snapshot_index}
use klaudiush.Backup.Storage.{
  ok, Disk, Metadata, Faults, stored, missing, unreadable, unparsable, save_index, load_index,
}
use klaudiush.Backup.Manager.{Manager, Clock}
use klaudiush.Backup.Consistency.{file_of, IsConsistentIndex, IsConsistent}
use klaudiush.Backup.Retention.{Chains, RetentionPolicy}
use klaudiush.Backup.Pruning.{
  Removals, nothing_removed, is_none_removed, remove_snapshots, to_remove, removals_saved,
  prune_index, apply_retention,
}
use klaudiush.Backup.Pruning.Removal.{IsRemoving, remove_snapshots-IsRemoving}

stored_injective : (a b : SnapshotIndex) → stored a ≡ stored b → a ≡ b
stored_injective a b h = cc h

List-cases : {A : Type 0} (xs : List A) → (xs ≡ []) ⊎ ((x : A) × (ys : List A) × (xs ≡ x ∷ ys))
List-cases [] = inl refl
List-cases (x ∷ xs) = inr (x, xs, refl)

empty-perm : {A : Type 0} (xs : List A) → Permᴰ xs [] → xs ≡ []
empty-perm [] p = refl
empty-perm (x ∷ xs) p = absurd (omega (arith, length-perm p))

All-filter-list :
    (P : Snapshot → Type 0) (q : Snapshot → Bool) (order : Snapshots)
    → All (λ e. P e.1) order
    → All P (filter q (list order))
unfolding list
All-filter-list P q [] a = tt
All-filter-list P q ((id, s) ∷ order) (first, others) = elim (Bool-cases (q s)) [
  | inl passes ↦ rw passes (first, All-filter-list P q order others)
  | inr fails ↦ rw fails (All-filter-list P q order others)
]

module _ (sha256_hex : Str → Str) (visit : Snapshots → Snapshots)
    (visit_chains : Snapshot → Chains → Chains) (now : Snapshot → Time) (faults : Faults)
    (clock : Clock) (m : Manager) (any_order : (ss : Snapshots) → Permᴰ (visit ss) ss)
    (never_whole : (index : SnapshotIndex) → faults.left_index ≢ stored index) where
  to_remove-placed :
      (policy : RetentionPolicy) (disk : Disk) (index : SnapshotIndex)
      → IsConsistentIndex sha256_hex m.storage disk index
      → All
          (λ s. s.storage_path ≡ file_of m.storage s.id)
          (to_remove visit visit_chains now faults clock m policy (visit index.snapshots))
  unfolding to_remove
  to_remove-placed policy disk index i =
      All-filter-list (λ s. s.storage_path ≡ file_of m.storage s.id) _ (visit index.snapshots)
        (All-perm (λ e. e.1.storage_path ≡ file_of m.storage e.1.id)
          (Permᴰ.symm (any_order index.snapshots))
          (All-lookup index.snapshots i.distinct (λ k s l. (i.kept k s l).placed)))

  none_removed-empty :
      (ids : List Str) → is_none_removed visit visit_chains now faults clock m ids ≡ true → ids ≡ []
  none_removed-empty [] h = refl
  none_removed-empty (id ∷ ids) h = absurd (cc h)

  removals_saved-IsConsistent :
      (removed : List Snapshot) (first : SnapshotIndex) (r : Removals)
      → IsRemoving sha256_hex m.storage (stored first) first r
      → IsConsistent sha256_hex m.storage
          (removals_saved visit visit_chains now faults clock m removed r).1
  unfolding removals_saved save_index IsConsistent
  removals_saved-IsConsistent removed first r p =
      elim (Bool-cases (is_none_removed visit visit_chains now faults clock m r.removed_ids)) [
        | inl none_removed ↦
            let same = p.unchanged (none_removed-empty r.removed_ids none_removed) in
            simp (removals_saved, none_removed)
              (λ other e.
                subst (IsConsistentIndex sha256_hex m.storage r.disk)
                  (same ∙ stored_injective first other (sym p.same_metadata ∙ e)) p.consistent)
        | inr some_removed ↦ elim (Option-cases faults.write_index) [
          | inl passes ↦
              simp (removals_saved, some_removed, save_index, passes)
                (λ other e.
                  subst
                    (IsConsistentIndex sha256_hex m.storage
                      (record r.disk { metadata = stored r.index }))
                    (stored_injective r.index other e)
                    (record {
                      rooted = p.consistent.rooted;
                      distinct = p.consistent.distinct;
                      kept = p.consistent.kept;
                    }))
          | inr (cause, refused) ↦
              simp (removals_saved, some_removed, save_index, refused)
                (λ other e. absurd (never_whole other e))
        ]
      ]

  new-unlisted : list (visit (new_snapshot_index clock.initialized).snapshots) ≡ []
  unfolding new_snapshot_index list
  new-unlisted = ap list (empty-perm (visit []) (any_order []))

  prune_index-empty :
      (policy : RetentionPolicy) (index : SnapshotIndex) (disk : Disk)
      → list (visit index.snapshots) ≡ []
      → prune_index visit visit_chains now faults clock m policy (ok index) disk
        ≡ (ok nothing_removed, disk)
  unfolding prune_index
  prune_index-empty policy index disk none_listed = simp (prune_index, none_listed)

  abbrev removed_of : RetentionPolicy → SnapshotIndex → List Snapshot
  removed_of policy index =
      to_remove visit visit_chains now faults clock m policy (visit index.snapshots)

  abbrev started : SnapshotIndex → Disk → Removals
  started index disk = record { index = index; disk = disk; bytes_freed = 0; removed_ids = [] }

  prune_index-some :
      (policy : RetentionPolicy) (index : SnapshotIndex) (disk : Disk) (s : Snapshot)
      (ss : List Snapshot)
      → list (visit index.snapshots) ≡ s ∷ ss
      → prune_index visit visit_chains now faults clock m policy (ok index) disk
        ≡ removals_saved visit visit_chains now faults clock m
            (removed_of policy index)
            (remove_snapshots faults clock.updated (removed_of policy index) (started index disk))
  unfolding prune_index
  prune_index-some policy index disk s ss some_listed = simp (prune_index, some_listed)

  prune_index-IsConsistent :
      (policy : RetentionPolicy) (disk : Disk) (metadata : Metadata)
      → disk.metadata ≡ metadata
      → IsConsistent sha256_hex m.storage disk
      → IsConsistent sha256_hex m.storage
          (prune_index visit visit_chains now faults clock m policy
            (load_index clock.initialized metadata)
            disk).1
  unfolding prune_index load_index IsConsistent
  prune_index-IsConsistent policy disk missing e c =
      subst (λ r. IsConsistent sha256_hex m.storage r.1)
        (sym (prune_index-empty policy (new_snapshot_index clock.initialized) disk new-unlisted)) c
  prune_index-IsConsistent policy disk (unreadable cause) e c = c
  prune_index-IsConsistent policy disk (unparsable cause) e c = c
  prune_index-IsConsistent policy disk (stored index) e c =
      elim (List-cases (list (visit index.snapshots))) [
        | inl none_listed ↦
            subst (λ r. IsConsistent sha256_hex m.storage r.1)
              (sym (prune_index-empty policy index disk none_listed)) c
        | inr (s, ss, some_listed) ↦
            let removed = removed_of policy index in
            subst (λ r. IsConsistent sha256_hex m.storage r.1)
              (sym (prune_index-some policy index disk s ss some_listed))
              (removals_saved-IsConsistent removed index
                (remove_snapshots faults clock.updated removed (started index disk))
                (remove_snapshots-IsRemoving sha256_hex m.storage faults clock.updated
                  (stored index) index removed (started index disk)
                  (to_remove-placed policy disk index (c index e))
                  (record { consistent = c index e; same_metadata = e; unchanged = λ h. refl })))
      ]

  -- Whatever the file system refuses in the middle, as long as a write of the index that fails leaves no
  -- whole index, and whatever the policy: applying it keeps the index consistent with the files.
  pub apply_retention-IsConsistent :
      (policy : Option RetentionPolicy) (disk : Disk)
      → IsConsistent sha256_hex m.storage disk
      → IsConsistent sha256_hex m.storage
          (apply_retention visit visit_chains now faults clock m policy disk).1
  unfolding apply_retention
  apply_retention-IsConsistent policy disk c = elim (Bool-cases m.is_enabled) [
    | inr off ↦ simp (apply_retention, off) c
    | inl on ↦ elim (Option-cases policy) [
      | inl nil ↦ simp (apply_retention, on, nil) c
      | inr (p, given) ↦ elim (Bool-cases disk.has_root) [
        | inl rooted ↦
            simp (apply_retention, on, given, rooted)
              (prune_index-IsConsistent p disk disk.metadata refl c)
        | inr bare ↦ simp (apply_retention, on, given, bare) c
      ]
    ]
  ]
