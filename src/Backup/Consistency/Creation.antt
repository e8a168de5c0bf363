-- ===== src/Backup/Consistency/Creation.antt =====
-- CreateBackup (manager.go) keeps the index and the stored files together.
use mathlib.Core.Path.{subst}
use klaudiush.Prelude.{
  ◌≡◌, ◌≢◌, refl, sym, inl, inr, true, Option, none, some, Bool-cases, Option-cases,
}
use klaudiush.Prelude.Bytes.{Str}
use klaudiush.Prelude.Maps.{lookup, insert}
use klaudiush.Backup.{
  Time, Snapshot, Snapshots, SnapshotIndex, add, compute_content_hash, generate_snapshot_id,
  new_snapshot_index,
}
use klaudiush.Backup.Storage.{
  Outcome, err, ok, Disk, Metadata, Faults, missing, stored, unreadable, unparsable, write_file,
  is_missing, put_left, save, join_path, snapshots_dir, save_index, failed, initialize, load_index,
}
use klaudiush.Backup.Manager.{
  Manager, Clock, CreateBackupOptions, create_backup, create_read, create_initialized,
  create_indexed, create_unless, record_saved, snapshot_of, snapshot_name, save_snapshot_to_index,
  read_config, ensure_initialized, create_snapshot_record, returned,
}
use klaudiush.Backup.Consistency.{
  file_of, IsConsistentIndex, IsConsistent, put_left-IsConsistent, add-IsConsistentIndex,
}

module _ (sha256_hex : Str → Str) (visit : Snapshots → Snapshots) (faults : Faults) (clock : Clock)
    (m : Manager) (opts : CreateBackupOptions) where
  -- A write of the index that fails leaves the index that was there, or no whole one.
  abbrev pub LeavesNoOther : Disk → Type 0
  LeavesNoOther disk =
      (index : SnapshotIndex) → faults.left_index ≡ stored index → disk.metadata ≡ stored index

  -- What holds of the index, if it can be read.
  OfIndex : (Disk → SnapshotIndex → Type 0) → Disk → Type 0
  OfIndex P disk = (index : SnapshotIndex) → disk.metadata ≡ stored index → P disk index

  -- The index is consistent, and has no snapshot under an ID.
  abbrev IsReadyFor : (id : Str) → Disk → SnapshotIndex → Type 0
  IsReadyFor id disk index =
      IsConsistentIndex sha256_hex m.storage disk index × (lookup id index.snapshots ≡ none)

  new-IsReadyFor :
      (id : Str) (disk : Disk) (now : Time)
      → disk.has_root ≡ true
      → IsReadyFor id disk (new_snapshot_index now)
  unfolding new_snapshot_index lookup
  new-IsReadyFor id disk now rooted =
      (record { rooted = rooted; distinct = tt; kept = λ k s l. absurd (cc l) }, refl)

  save_index-OfIndex :
      (P : Disk → SnapshotIndex → Type 0) (disk : Disk) (index : SnapshotIndex)
      → P (record disk { metadata = stored index }) index
      → ((other : SnapshotIndex)
          → faults.left_index ≡ stored other
          → P (record disk { metadata = faults.left_index }) other)
      → OfIndex P (save_index faults index disk).1
  unfolding save_index OfIndex
  save_index-OfIndex P disk index p left = elim (Option-cases faults.write_index) [
    | inl passes ↦
        rw passes (λ other e. subst (P (record disk { metadata = stored index })) (cc e) p)
    | inr (cause, refused) ↦ rw refused left
  ]

  not_missing :
      (disk : Disk) (index : SnapshotIndex)
      → disk.metadata ≡ stored index
      → is_missing disk.metadata ≢ true
  not_missing disk index there first =
      let here : is_missing (stored index) ≡ true = rw there at first in cc here

  ensure_initialized-LeavesNoOther :
      (disk : Disk)
      → LeavesNoOther disk
      → LeavesNoOther (ensure_initialized faults clock.initialized disk).1
  unfolding ensure_initialized initialize save_index
  ensure_initialized-LeavesNoOther disk leaves = elim (Bool-cases disk.has_root) [
    | inl rooted ↦ simp (rooted) leaves
    | inr bare ↦ elim (Option-cases faults.mkdir) [
      | inr (cause, refused) ↦ simp (initialize, bare, refused) leaves
      | inl passes ↦ elim (Bool-cases (is_missing disk.metadata)) [
        | inl first ↦ λ other e. absurd (not_missing disk other (leaves other e) first)
        | inr there ↦ rw (bare, passes, there) leaves
      ]
    ]
  ]

  ensure_initialized-IsReadyFor :
      (id : Str) (disk : Disk)
      → LeavesNoOther disk
      → OfIndex (IsReadyFor id) disk
      → OfIndex (IsReadyFor id) (ensure_initialized faults clock.initialized disk).1
  unfolding ensure_initialized initialize OfIndex
  ensure_initialized-IsReadyFor id disk leaves ready = elim (Bool-cases disk.has_root) [
    | inl rooted ↦ simp (rooted) ready
    | inr bare ↦ elim (Option-cases faults.mkdir) [
      | inr (cause, refused) ↦ simp (initialize, bare, refused) ready
      | inl passes ↦ elim (Bool-cases (is_missing disk.metadata)) [
        | inl first ↦
            rw (bare, passes, first)
              (save_index-OfIndex (IsReadyFor id) (record disk { has_root = true })
                (new_snapshot_index clock.initialized) (new-IsReadyFor id _ _ refl)
                (λ other e. absurd (not_missing disk other (leaves other e) first)))
        | inr there ↦
            rw (bare, passes, there) (λ index e. absurd (cc (bare, (ready index e).0.rooted)))
      ]
    ]
  ]

  save-refused :
      (name content cause : Str) (disk : Disk)
      → disk.has_root ≡ true
      → faults.write (join_path (snapshots_dir m.storage) name) ≡ some cause
      → save m.storage faults name content disk ≡ (
        err (failed cause),
        record disk {
          files =
              put_left
                (join_path (snapshots_dir m.storage) name)
                (faults.left (join_path (snapshots_dir m.storage) name))
                disk.files;
        },
      )
  unfolding save write_file
  save-refused name content cause disk rooted refused = simp (save, write_file, rooted, refused)

  save-passes :
      (name content : Str) (disk : Disk)
      → disk.has_root ≡ true
      → faults.write (join_path (snapshots_dir m.storage) name) ≡ none
      → save m.storage faults name content disk ≡ (
        ok (join_path (snapshots_dir m.storage) name),
        record disk {
          files = insert (join_path (snapshots_dir m.storage) name) content disk.files;
        },
      )
  unfolding save write_file
  save-passes name content disk rooted passes = simp (save, write_file, rooted, passes)

  module _ (content : Str) where
    abbrev new_id : Str
    new_id =
        generate_snapshot_id sha256_hex clock.unix_nano (compute_content_hash sha256_hex content)

    snd-returned :
        (s : Snapshot) (r : Outcome (Unit {0}) × Disk)
        → (returned sha256_hex visit faults clock m opts s r).1 ≡ r.1
    snd-returned s (err e, disk) = refl
    snd-returned s (ok done, disk) = refl

    -- The index that was there, with the file of the new snapshot.
    left-IsConsistentIndex :
        (disk : Disk) (index : SnapshotIndex)
        → OfIndex (IsReadyFor new_id) disk
        → disk.metadata ≡ stored index
        → IsConsistentIndex sha256_hex m.storage
            (record disk {
              files = insert (file_of m.storage new_id) content disk.files;
              metadata = faults.left_index;
            })
            index
    unfolding OfIndex IsConsistent
    left-IsConsistentIndex disk index ready there =
        let c =
          put_left-IsConsistent sha256_hex m.storage disk new_id (some content)
            (λ other e. (ready other e).1) (λ other e. (ready other e).0) index there in
        record { rooted = c.rooted; distinct = c.distinct; kept = c.kept }

    record_saved-IsConsistent :
        (index : SnapshotIndex) (disk : Disk)
        → LeavesNoOther disk
        → disk.has_root ≡ true
        → IsReadyFor new_id disk index
        → OfIndex (IsReadyFor new_id) disk
        → IsConsistent sha256_hex m.storage
            (record_saved sha256_hex visit faults clock m opts content index (
              save m.storage faults
                (snapshot_name sha256_hex visit faults clock m opts content)
                content
                disk)).1
    unfolding record_saved save_snapshot_to_index snapshot_of snapshot_name create_snapshot_record
        IsConsistent OfIndex
    record_saved-IsConsistent index disk leaves rooted (i, fresh) ready =
        let name = snapshot_name sha256_hex visit faults clock m opts content in
        elim (Option-cases (faults.write (file_of m.storage new_id))) [
          | inr (cause, refused) ↦
              subst
                (λ r.
                  IsConsistent sha256_hex m.storage
                    (record_saved sha256_hex visit faults clock m opts content index r).1)
                (sym (save-refused name content cause disk rooted refused))
                (put_left-IsConsistent sha256_hex m.storage disk new_id
                  (faults.left (file_of m.storage new_id)) (λ other e. (ready other e).1)
                  (λ other e. (ready other e).0))
          | inl passes ↦
              let path = file_of m.storage new_id in
              let s = snapshot_of sha256_hex visit faults clock m opts content path index in
              let disk' = record disk { files = insert path content disk.files } in
              subst
                (λ r.
                  IsConsistent sha256_hex m.storage
                    (record_saved sha256_hex visit faults clock m opts content index r).1)
                (sym (save-passes name content disk rooted passes))
                (subst (IsConsistent sha256_hex m.storage)
                  (sym (snd-returned s (save_index faults (add clock.updated s index) disk')))
                  (save_index-OfIndex (IsConsistentIndex sha256_hex m.storage) disk'
                    (add clock.updated s index)
                    (add-IsConsistentIndex sha256_hex m.storage clock.updated disk index s content
                      fresh refl refl refl i)
                    (λ other e. left-IsConsistentIndex disk other ready (leaves other e))))
        ]

    create_unless-IsConsistent :
        (existing : Option Snapshot) (index : SnapshotIndex) (disk : Disk)
        → LeavesNoOther disk
        → (disk.has_root ≡ true → IsReadyFor new_id disk index)
        → OfIndex (IsReadyFor new_id) disk
        → IsConsistent sha256_hex m.storage
            (create_unless sha256_hex visit faults clock m opts existing content index disk).1
    unfolding create_unless IsConsistent OfIndex record_saved save
    create_unless-IsConsistent (some s) index disk leaves here ready = λ other e. (ready other e).0
    create_unless-IsConsistent none index disk leaves here ready = elim (Bool-cases disk.has_root) [
      | inl rooted ↦ record_saved-IsConsistent index disk leaves rooted (here rooted) ready
      | inr bare ↦ simp (save, bare) (λ other e. (ready other e).0)
    ]

    create_indexed-IsConsistent :
        (disk : Disk)
        → LeavesNoOther disk
        → OfIndex (IsReadyFor new_id) disk
        → (metadata : Metadata) → disk.metadata ≡ metadata
        → IsConsistent sha256_hex m.storage
            (create_indexed sha256_hex visit faults clock m opts content
              (load_index clock.initialized metadata)
              disk).1
    unfolding create_indexed load_index IsConsistent OfIndex
    create_indexed-IsConsistent disk leaves ready missing e =
        create_unless-IsConsistent _ (new_snapshot_index clock.initialized) disk leaves
          (new-IsReadyFor new_id disk clock.initialized) ready
    create_indexed-IsConsistent disk leaves ready (unreadable cause) e =
        λ other e'. (ready other e').0
    create_indexed-IsConsistent disk leaves ready (unparsable cause) e =
        λ other e'. (ready other e').0
    create_indexed-IsConsistent disk leaves ready (stored index) e =
        create_unless-IsConsistent _ index disk leaves (λ rooted. ready index e) ready

    create_initialized-IsConsistent :
        (r : Outcome (Unit {0}) × Disk)
        → LeavesNoOther r.1
        → OfIndex (IsReadyFor new_id) r.1
        → IsConsistent sha256_hex m.storage
            (create_initialized sha256_hex visit faults clock m opts content r).1
    unfolding create_initialized IsConsistent OfIndex
    create_initialized-IsConsistent (err cause, disk) leaves ready = λ other e. (ready other e).0
    create_initialized-IsConsistent (ok done, disk) leaves ready =
        create_indexed-IsConsistent disk leaves ready disk.metadata refl

  -- Whatever the file system refuses in the middle, as long as a write of the index that fails leaves
  -- the index that was there or no whole one: creating a backup keeps the index consistent with the
  -- files, if the index has no snapshot under the ID that the new one gets.
  pub create_backup-IsConsistent :
      (disk : Disk)
      → LeavesNoOther disk
      → IsConsistent sha256_hex m.storage disk
      → ((content : Str) (index : SnapshotIndex)
          → lookup opts.config_path disk.files ≡ some content
          → disk.metadata ≡ stored index
          → lookup
              (generate_snapshot_id sha256_hex clock.unix_nano
                (compute_content_hash sha256_hex content))
              index.snapshots
            ≡ none)
      → IsConsistent sha256_hex m.storage
          (create_backup sha256_hex visit faults clock m opts disk).1
  unfolding create_backup create_read read_config IsConsistent OfIndex
  create_backup-IsConsistent disk leaves c fresh = elim (Bool-cases m.is_enabled) [
    | inr off ↦ simp (off) c
    | inl on ↦ elim (Option-cases (faults.read opts.config_path)) [
      | inr (cause, refused) ↦ simp (on, read_config, refused) c
      | inl passes ↦ elim (Option-cases (lookup opts.config_path disk.files)) [
        | inl absent ↦ simp (on, read_config, passes, absent) c
        | inr (content, there) ↦
            simp (on, read_config, passes, there)
              (create_initialized-IsConsistent content _
                (ensure_initialized-LeavesNoOther disk leaves)
                (ensure_initialized-IsReadyFor (new_id content) disk leaves
                  (λ index e. (c index e, fresh content index there e))))
      ]
    ]
  ]
