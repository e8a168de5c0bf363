-- ===== src/Backup/Stored.antt =====
-- What the index says of the stored files, and that a snapshot that is stored so can be restored.
use mathlib.Core.Path.{subst}
use klaudiush.Prelude.{
  ◌≡◌, refl, sym, ap, ◌∙◌, inl, inr, Bool, true, false, none, some, length, Bool-cases,
  if◌then◌else◌,
}
use klaudiush.Prelude.Bytes.{Str, is_empty}
use klaudiush.Prelude.Bytes.Laws.{str_eq_refl}
use klaudiush.Prelude.Maps.{lookup}
use klaudiush.Prelude.Maps.Laws.{lookup-insert_same}
use klaudiush.Backup.{
  Snapshot, Snapshots, SnapshotIndex, StorageType, is_full, is_patch, get, compute_content_hash,
}
use klaudiush.Backup.Storage.{
  Outcome, err, ok, Disk, no_faults, stored, load_index, load, write_file, content_or,
  snapshot_not_found, backup_disabled,
}
use klaudiush.Backup.Manager.{Manager, Clock, get_snapshot, snapshot_or}
use klaudiush.Backup.Restore.{
  RestoreOptions, RestoreResult, restore, restore_snapshot, restore_validated, restore_found,
  validate_snapshot, validate_loaded, write_restored, reconstruct_snapshot, restored, target,
}

-- A snapshot that is in the index under its ID, with its content in its file.
pub record IsStored (sha256_hex : Str → Str) (disk : Disk) (s : Snapshot) (content : Str)
    : Type 0 where
  pub rooted : disk.has_root ≡ true
  pub index : SnapshotIndex
  pub indexed : disk.metadata ≡ stored index
  pub listed : lookup s.id index.snapshots ≡ some s
  pub full : s.storage_type ≡ StorageType.full
  pub there : lookup s.storage_path disk.files ≡ some content
  pub hashed : sha256_hex content ≡ s.metadata.config_hash

-- A restore without a backup that writes the content to the path.
unfoldable pub Restores :
    (path content : Str) → (validate : Bool) → Outcome RestoreResult × Disk → Type 0
Restores path content validate (r, disk) =
    (r
      ≡ ok (record {
        restored_path = path;
        backup_snapshot = none;
        bytes_restored = length content;
        checksum_verified = validate;
      }))
    × (lookup path disk.files ≡ some content)

module _ (sha256_hex : Str → Str) (visit : Snapshots → Snapshots) (clock : Clock) (m : Manager)
    (enabled : m.is_enabled ≡ true) (disk : Disk) (s : Snapshot) (content : Str)
    (i : IsStored sha256_hex disk s content) where
  get-IsStored : get_snapshot m clock.initialized s.id disk ≡ ok s
  unfolding get_snapshot load_index get
  get-IsStored =
      simp (get_snapshot, enabled, i.rooted, i.indexed)
        (ap (snapshot_or (snapshot_not_found s.id)) i.listed)

  load-IsStored : load no_faults s.storage_path disk ≡ ok content
  unfolding load
  load-IsStored = ap (content_or (snapshot_not_found s.storage_path)) i.there

  reconstruct-IsStored : reconstruct_snapshot no_faults s disk ≡ ok content
  unfolding reconstruct_snapshot is_full
  reconstruct-IsStored = simp (reconstruct_snapshot, i.full) load-IsStored

  validate-IsStored : validate_snapshot sha256_hex no_faults s disk ≡ ok tt
  unfolding validate_snapshot validate_loaded compute_content_hash is_patch
  validate-IsStored =
      ap (validate_loaded sha256_hex s) load-IsStored
      ∙ simp (
        validate_loaded,
        is_patch,
        compute_content_hash,
        i.hashed,
        i.full,
        str_eq_refl s.metadata.config_hash,
      )

  module _ (opts : RestoreOptions)
      (targeted : is_empty (target sha256_hex visit no_faults clock m s opts) ≡ false)
      (no_backup : opts.backup_before_restore ≡ false) where
    write-IsStored :
        write_restored sha256_hex visit no_faults clock m s opts none (ok content) disk
        ≡ restored sha256_hex visit no_faults clock m s opts content none
            (write_file no_faults (target sha256_hex visit no_faults clock m s opts) content disk)
    unfolding write_restored compute_content_hash
    write-IsStored = elim (Bool-cases opts.validate) [
      | inl on ↦
          simp
            (write_restored, compute_content_hash, on, i.hashed, str_eq_refl s.metadata.config_hash)
      | inr off ↦ simp (write_restored, off)
    ]

    validated-IsStored :
        (if opts.validate then validate_snapshot sha256_hex no_faults s disk else ok tt) ≡ ok tt
    validated-IsStored = elim (Bool-cases opts.validate) [
      | inl on ↦ simp (on) validate-IsStored
      | inr off ↦ simp (off)
    ]

    restore-IsStored :
        restore sha256_hex visit no_faults clock m s opts disk
        ≡ restored sha256_hex visit no_faults clock m s opts content none
            (write_file no_faults (target sha256_hex visit no_faults clock m s opts) content disk)
    unfolding restore restore_validated
    restore-IsStored =
        simp
          (
            restore, targeted, validated-IsStored, restore_validated, no_backup,
            reconstruct-IsStored,
          )
          write-IsStored

    restore_snapshot-restored :
        restore_snapshot sha256_hex visit no_faults clock m s.id opts disk
        ≡ restored sha256_hex visit no_faults clock m s opts content none
            (write_file no_faults (target sha256_hex visit no_faults clock m s opts) content disk)
    unfolding restore_snapshot
    restore_snapshot-restored =
        let found = restore_found sha256_hex visit no_faults clock m opts in
        ap
          (λ e.
            if e
            then found (get_snapshot m clock.initialized s.id disk) disk
            else (err backup_disabled, disk))
          enabled
        ∙ ap (λ r. found r disk) get-IsStored
        ∙ restore-IsStored

    -- The restore succeeds, and the file at the target has the content.
    pub restore_snapshot-IsStored :
        Restores
          (target sha256_hex visit no_faults clock m s opts)
          content
          opts.validate
          (restore_snapshot sha256_hex visit no_faults clock m s.id opts disk)
    unfolding write_file Restores
    restore_snapshot-IsStored =
        let t = target sha256_hex visit no_faults clock m s opts in
        subst (Restores t content opts.validate) (sym restore_snapshot-restored)
          (refl, lookup-insert_same t content disk.files)
