-- ===== src/Backup/Recovery.antt =====
-- Creating a backup and restoring it (CreateBackup and RestoreSnapshot of manager.go).
use mathlib.Core.List.{Permᴰ}
use mathlib.Core.List.Permᴰ
use mathlib.Core.Path.{subst}
use klaudiush.Prelude.{
  ◌≡◌, refl, sym, ◌∙◌, ◌⊎◌, inl, inr, true, false, none, some, [], ◌∷◌, arith, Bool-cases,
  Option-cases,
}
use klaudiush.Prelude.Bytes.{Str, is_empty, str_eq}
use klaudiush.Prelude.Bytes.Laws.{str_eq_refl, str_eq_iff}
use klaudiush.Prelude.Maps.{lookup, insert, DistinctKeys}
use klaudiush.Prelude.Maps.Laws.{lookup_absent, lookup-insert_same}
use klaudiush.Prelude.Maps.Eviction.{DistinctKeys-perm, lookup-perm}
use klaudiush.Backup.{
  Snapshot, Snapshots, SnapshotIndex, find_by_hash, add, compute_content_hash, new_snapshot_index,
}
use klaudiush.Backup.Storage.{
  Outcome, ok, Disk, no_faults, missing, stored, load_index, write_file, snapshots_dir, save,
  save_index, join_path, initialize, FilesystemStorage,
}
use klaudiush.Backup.Manager.{
  Manager, Clock, CreateBackupOptions, create_backup, create_read, create_initialized,
  create_indexed, create_unless, record_saved, snapshot_of, snapshot_name, save_snapshot_to_index,
  read_config, ensure_initialized, create_snapshot_record,
}
use klaudiush.Backup.Stored.{IsStored, Restores, restore_snapshot-IsStored}
use klaudiush.Backup.Consistency.{IsConsistent, IsConsistentIndex}
use klaudiush.Backup.Restore.{RestoreOptions, restore_snapshot}

-- What a range that looks for a hash finds has that hash, and the index has it.
find_by_hash-lookup :
    (order : Snapshots) (hash : Str) (s : Snapshot)
    → DistinctKeys order
    → find_by_hash order hash ≡ some s
    → (id : Str) × (lookup id order ≡ some s) × (s.metadata.config_hash ≡ hash)
unfolding find_by_hash lookup
find_by_hash-lookup [] hash s d e = absurd (cc e)
find_by_hash-lookup ((id, first) ∷ order) hash s (new, d) e =
    elim (Bool-cases (str_eq first.metadata.config_hash hash)) [
      | inl same ↦
          let found = rw same at e in
          (id, rw (str_eq_refl id) found, cc (found, (str_eq_iff _ _).0 same))
      | inr other ↦
          let (k, l, h) = find_by_hash-lookup order hash s d (rw other at e) in
          (k, ground (arith, l, str_eq_iff id k, lookup_absent id order new), h)
    ]

-- The result of a backup is a snapshot that is stored with the content.
unfoldable pub BackedUp :
    (sha256_hex : Str → Str) (content : Str) → Outcome Snapshot × Disk → Type 0
BackedUp sha256_hex content (r, disk) =
    (s : Snapshot) × (r ≡ ok s) × IsStored sha256_hex disk s content

module _ (sha256_hex : Str → Str) (visit : Snapshots → Snapshots) (clock : Clock) (m : Manager)
    (opts : CreateBackupOptions) (content : Str) where
  save-rooted :
      (f : FilesystemStorage) (name : Str) (disk : Disk)
      → disk.has_root ≡ true
      → save f no_faults name content disk ≡ (
        ok (join_path (snapshots_dir f) name),
        record disk { files = insert (join_path (snapshots_dir f) name) content disk.files },
      )
  unfolding save write_file
  save-rooted f name disk rooted = simp (rooted)

  create_unless-BackedUp :
      (index : SnapshotIndex) (disk : Disk)
      → disk.has_root ≡ true
      → BackedUp sha256_hex content
          (create_unless sha256_hex visit no_faults clock m opts none content index disk)
  unfolding create_unless record_saved save_snapshot_to_index save_index add BackedUp snapshot_of
      create_snapshot_record compute_content_hash
  create_unless-BackedUp index disk rooted =
      let name = snapshot_name sha256_hex visit no_faults clock m opts content in
      let path = join_path (snapshots_dir m.storage) name in
      let s = snapshot_of sha256_hex visit no_faults clock m opts content path index in
      subst
        (λ r.
          BackedUp sha256_hex content
            (record_saved sha256_hex visit no_faults clock m opts content index r))
        (sym (save-rooted m.storage name disk rooted))
        (
          s,
          refl,
          record {
            rooted = rooted;
            index = add clock.updated s index;
            indexed = refl;
            listed = lookup-insert_same s.id s index.snapshots;
            full = refl;
            there = lookup-insert_same path content disk.files;
            hashed = refl;
          },
        )

  module _ (any_order : (ss : Snapshots) → Permᴰ (visit ss) ss) where
    -- Content that the index has under its hash is that of the snapshot that is found.
    create_indexed-BackedUp :
        (index : SnapshotIndex) (disk : Disk)
        → disk.has_root ≡ true
        → DistinctKeys index.snapshots
        → ((id : Str) (s : Snapshot)
            → lookup id index.snapshots ≡ some s
            → s.metadata.config_hash ≡ sha256_hex content
            → IsStored sha256_hex disk s content)
        → BackedUp sha256_hex content
            (create_indexed sha256_hex visit no_faults clock m opts content (ok index) disk)
    unfolding create_indexed create_unless compute_content_hash BackedUp
    create_indexed-BackedUp index disk rooted d known =
        elim (Option-cases (find_by_hash (visit index.snapshots) (sha256_hex content))) [
          | inl absent ↦ rw absent (create_unless-BackedUp index disk rooted)
          | inr (s, e) ↦
              let (id, l, h) =
                find_by_hash-lookup (visit index.snapshots) (sha256_hex content) s
                  (DistinctKeys-perm (Permᴰ.symm (any_order _)) d) e in
              let found =
                sym (lookup-perm id (any_order _) (DistinctKeys-perm (Permᴰ.symm (any_order _)) d))
                ∙ l in
              rw e (s, refl, known id s found h)
        ]

    ready-BackedUp :
        (disk disk' : Disk) (index : SnapshotIndex)
        → m.is_enabled ≡ true
        → lookup opts.config_path disk.files ≡ some content
        → ensure_initialized no_faults clock.initialized disk ≡ (ok tt, disk')
        → load_index clock.initialized disk'.metadata ≡ ok index
        → BackedUp sha256_hex content
            (create_indexed sha256_hex visit no_faults clock m opts content (ok index) disk')
        → BackedUp sha256_hex content (create_backup sha256_hex visit no_faults clock m opts disk)
    unfolding create_backup create_read create_initialized read_config
    ready-BackedUp disk disk' index enabled there ready loaded b =
        rw (enabled, there, ready, loaded) b

    -- What has the hash of the content is the content.
    kept-IsStored :
        (disk : Disk) (index : SnapshotIndex)
        → ((other : Str) → sha256_hex other ≡ sha256_hex content → other ≡ content)
        → disk.metadata ≡ stored index
        → IsConsistentIndex sha256_hex m.storage disk index
        → (id : Str) (s : Snapshot) → lookup id index.snapshots ≡ some s
        → s.metadata.config_hash ≡ sha256_hex content
        → IsStored sha256_hex disk s content
    kept-IsStored disk index only e i id s l same =
        let k = i.kept id s l in
        record {
          rooted = i.rooted;
          index = index;
          indexed = e;
          listed = rw k.keyed at l;
          full = k.full;
          there =
              subst (λ c. lookup s.storage_path disk.files ≡ some c)
                (only k.content (k.hashed ∙ same)) k.there;
          hashed = sym same;
        }

    create_backup-BackedUp :
        (disk : Disk)
        → m.is_enabled ≡ true
        → lookup opts.config_path disk.files ≡ some content
        → ((other : Str) → sha256_hex other ≡ sha256_hex content → other ≡ content)
        → IsConsistent sha256_hex m.storage disk
        → (disk.metadata ≡ missing) ⊎ ((index : SnapshotIndex) × (disk.metadata ≡ stored index))
        → BackedUp sha256_hex content (create_backup sha256_hex visit no_faults clock m opts disk)
    unfolding ensure_initialized initialize save_index load_index IsConsistent new_snapshot_index
        lookup
    create_backup-BackedUp disk enabled there only c (inr (index, e)) =
        let i = c index e in
        ready-BackedUp disk disk index enabled there (simp (i.rooted)) (simp (e)) (
          create_indexed-BackedUp index disk i.rooted i.distinct
            (kept-IsStored disk index only e i))
    create_backup-BackedUp disk enabled there only c (inl e) =
        let fresh = new_snapshot_index clock.initialized in
        elim (Bool-cases disk.has_root) [
          | inl rooted ↦
              ready-BackedUp disk disk fresh enabled there (simp (rooted)) (simp (e))
                (create_indexed-BackedUp fresh disk rooted tt (λ id s l h. absurd (cc l)))
          | inr bare ↦
              ready-BackedUp disk (record disk { has_root = true; metadata = stored fresh }) fresh
                enabled there (simp (initialize, save_index, bare, e)) refl
                (create_indexed-BackedUp fresh _ refl tt (λ id s l h. absurd (cc l)))
        ]

    -- Where the file system refuses nothing, backups are enabled, the index is there and consistent with
    -- the files, or not there yet, and no other content has the hash of the configuration's: a backup of
    -- the configuration returns a snapshot, new or of the same content, and restoring the snapshot by its
    -- ID to a path, at any later time, without a backup first, and with validation or without, succeeds
    -- and leaves the configuration's content at that path.
    pub create_backup-restore_snapshot :
        (disk : Disk) (later : Clock) (restoring : RestoreOptions)
        → m.is_enabled ≡ true
        → lookup opts.config_path disk.files ≡ some content
        → ((other : Str) → sha256_hex other ≡ sha256_hex content → other ≡ content)
        → IsConsistent sha256_hex m.storage disk
        → (disk.metadata ≡ missing) ⊎ ((index : SnapshotIndex) × (disk.metadata ≡ stored index))
        → is_empty restoring.target_path ≡ false
        → restoring.backup_before_restore ≡ false
        → let r = create_backup sha256_hex visit no_faults clock m opts disk in
          (s : Snapshot) × (r.0 ≡ ok s)
          × Restores restoring.target_path content restoring.validate
              (restore_snapshot sha256_hex visit no_faults later m s.id restoring r.1)
    unfolding BackedUp
    create_backup-restore_snapshot disk later restoring enabled there only c readable targeted
          unbacked =
        let (s, e, i) = create_backup-BackedUp disk enabled there only c readable in
        let r = create_backup sha256_hex visit no_faults clock m opts disk in
        (
          s,
          e,
          subst
              (λ t.
                Restores t content restoring.validate
                  (restore_snapshot sha256_hex visit no_faults later m s.id restoring r.1))
              (simp (targeted))
              (restore_snapshot-IsStored sha256_hex visit later m enabled r.1 s content i restoring
                (simp (targeted)) unbacked),
        )
