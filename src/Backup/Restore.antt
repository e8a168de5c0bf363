-- ===== src/Backup/Restore.antt =====
-- internal/backup/restore.go, and the restoring methods of manager.go.
use klaudiush.Prelude.{ℕ, Bool, not, ◌&&◌, Option, none, some, [], ◌++◌, length, if◌then◌else◌}
use klaudiush.Prelude.Bytes.{Str, codes, is_empty, str_eq}
use klaudiush.Prelude.Maps.{lookup, is_some}
use klaudiush.Backup.{manual, Snapshot, Snapshots, is_full, is_patch, compute_content_hash}
use klaudiush.Backup.Storage.{
  Outcome, err, ok, Disk, Faults, load, write_file, checksum_mismatch, target_path_required,
  patch_not_implemented, failed, backup_disabled,
}
use klaudiush.Backup.Manager.{Manager, Clock, CreateBackupOptions, create_backup, get_snapshot}

pub record RestoreOptions : Type 0 where
  pub target_path : Str
  pub backup_before_restore : Bool
  pub force : Bool
  pub validate : Bool

pub record RestoreResult : Type 0 where
  pub restored_path : Str
  pub backup_snapshot : Option Snapshot
  pub bytes_restored : ℕ
  pub checksum_verified : Bool

unfoldable pub reconstruct_snapshot : Faults → Snapshot → Disk → Outcome Str
reconstruct_snapshot faults s disk =
    if is_full s then load faults s.storage_path disk else err patch_not_implemented

module _ (sha256_hex : Str → Str) where
  -- `ValidateSnapshot`, from the loading on.
  unfoldable pub validate_loaded : Snapshot → Outcome Str → Outcome (Unit {0})
  unfolding compute_content_hash
  validate_loaded s (err e) = err e
  validate_loaded s (ok content) =
      if str_eq (compute_content_hash sha256_hex content) s.metadata.config_hash
      then (if is_patch s then err patch_not_implemented else ok tt)
      else err checksum_mismatch

  unfoldable pub validate_snapshot : Faults → Snapshot → Disk → Outcome (Unit {0})
  unfolding validate_loaded
  validate_snapshot faults s disk = validate_loaded s (load faults s.storage_path disk)

  module _ (visit : Snapshots → Snapshots) (faults : Faults) (clock : Clock) (m : Manager)
      (s : Snapshot) (opts : RestoreOptions) where
    abbrev pub target : Str
    target = if is_empty opts.target_path then s.config_path else opts.target_path

    abbrev pub restored :
        (content : Str) → Option Snapshot → Outcome (Unit {0}) × Disk → Outcome RestoreResult × Disk
    restored content backup (err e, disk) = (err e, disk)
    restored content backup (ok done, disk) = (
      ok (record {
        restored_path = target;
        backup_snapshot = backup;
        bytes_restored = length content;
        checksum_verified = opts.validate;
      }),
      disk,
    )

    -- From the second test of the checksum on.
    unfoldable pub write_restored :
        Option Snapshot → Outcome Str → Disk → Outcome RestoreResult × Disk
    unfolding compute_content_hash
    write_restored backup (err e) disk = (err e, disk)
    write_restored backup (ok content) disk =
        if opts.validate
          && not (str_eq (compute_content_hash sha256_hex content) s.metadata.config_hash)
        then (err checksum_mismatch, disk)
        else elim faults.mkdir [
          | some e ↦ (err (failed e), disk)
          | none ↦ restored content backup (write_file faults target content disk)
        ]

    -- The backup that is made first, if any: `os.Stat` finds the file at the target.
    abbrev pub wants_backup : Disk → Bool
    wants_backup disk =
        opts.backup_before_restore && not opts.force && is_some (lookup target disk.files)

    abbrev pub before_restore : CreateBackupOptions
    before_restore = record {
      config_path = target;
      trigger = manual;
      metadata = record {
        user = [];
        hostname = [];
        command = [];
        config_hash = [];
        tag = codes "before-restore";
        description = codes "Automatic backup before restoring snapshot " ++ s.id;
      };
    }

    unfoldable pub restore_backed_up : Outcome Snapshot × Disk → Outcome RestoreResult × Disk
    unfolding write_restored reconstruct_snapshot
    restore_backed_up (err e, disk) = (err e, disk)
    restore_backed_up (ok backup, disk) =
        write_restored (some backup) (reconstruct_snapshot faults s disk) disk

    unfoldable pub restore_validated : Outcome (Unit {0}) → Disk → Outcome RestoreResult × Disk
    unfolding restore_backed_up write_restored reconstruct_snapshot
    restore_validated (err e) disk = (err e, disk)
    restore_validated (ok done) disk =
        if wants_backup disk
        then restore_backed_up (create_backup sha256_hex visit faults clock m before_restore disk)
        else write_restored none (reconstruct_snapshot faults s disk) disk

    -- `Restorer.RestoreSnapshot`
    unfoldable pub restore : Disk → Outcome RestoreResult × Disk
    unfolding restore_validated validate_snapshot
    restore disk =
        if is_empty target
        then (err target_path_required, disk)
        else restore_validated (if opts.validate then validate_snapshot faults s disk else ok tt)
            disk

  module _ (visit : Snapshots → Snapshots) (faults : Faults) (clock : Clock) (m : Manager) where
    abbrev pub restore_found :
        RestoreOptions → Outcome Snapshot → Disk → Outcome RestoreResult × Disk
    restore_found opts (err e) disk = (err e, disk)
    restore_found opts (ok s) disk = restore visit faults clock m s opts disk

    -- `Manager.RestoreSnapshot`
    unfoldable pub restore_snapshot :
        (id : Str) → RestoreOptions → Disk → Outcome RestoreResult × Disk
    unfolding restore get_snapshot
    restore_snapshot id opts disk =
        if m.is_enabled
        then restore_found opts (get_snapshot m clock.initialized id disk) disk
        else (err backup_disabled, disk)

    abbrev pub validate_found : Outcome Snapshot → Disk → Outcome (Unit {0})
    validate_found (err e) disk = err e
    validate_found (ok s) disk = validate_snapshot faults s disk

    -- `Manager.ValidateSnapshot`
    unfoldable pub validate_by_id : (id : Str) → Disk → Outcome (Unit {0})
    unfolding validate_snapshot get_snapshot
    validate_by_id id disk =
        if m.is_enabled
        then validate_found (get_snapshot m clock.initialized id disk) disk
        else err backup_disabled
