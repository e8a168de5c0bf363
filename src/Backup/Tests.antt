-- ===== src/Backup/Tests.antt =====
-- Backups of two configuration files, with content as its own hash.
use mathlib.Core.List.Permᴰ
use mathlib.Core.Path.{subst}
use klaudiush.Prelude.{
  ◌≡◌, refl, ap, ◌⊎◌, inl, ℕ, true, false, none, some, List, [], ◌∷◌, filter, ◌≤◌,
}
use klaudiush.Prelude.Bytes.{Str, codes, str_eq, has_prefix, trim_prefix}
use klaudiush.Prelude.Int.{pos}
use klaudiush.Prelude.Sort.{sort}
use klaudiush.Prelude.Maps.{lookup, insert, get_or}
use klaudiush.Prelude.Bytes.Text.{itoa}
use klaudiush.Backup.{
  SnapshotIndex, new_snapshot_index, add, find_by_hash, generate_snapshot_id, compute_content_hash,
  Snapshots, Snapshot, SnapshotMetadata, Trigger, ConfigType, StorageType,
}
use klaudiush.Backup.Storage.{
  Disk, Faults, no_faults, missing, Metadata, stored, unreadable, unparsable, initialize,
  load_index, load, save, ok, err, checksum_mismatch, sanitize_path,
}
use klaudiush.Backup.Manager.{
  Manager, Clock, CreateBackupOptions, create_backup, generate_chain_id, determine_config_type,
}
use klaudiush.Backup.Restore.{RestoreOptions, restore_snapshot, restore}
use klaudiush.Backup.Retention.{RetentionPolicy, add_to_chain, sum_sizes, should_retain}
use klaudiush.Backup.Retention.Sizes.{sum_sizes-retains_size}
use klaudiush.Backup.Pruning.{apply_retention}
use klaudiush.Backup.Pruning.Laws.{apply_retention-IsConsistent}
use klaudiush.Backup.Stored.{Restores}
use klaudiush.Backup.Verified.{Fails, HasHash, Ends, restore-IsRestored}
use klaudiush.Backup.Recovery.{create_backup-restore_snapshot}
use klaudiush.Backup.Consistency.{IsConsistent}
use klaudiush.Backup.Consistency.Creation.{create_backup-IsConsistent}

abbrev no_hash : Str → Str
no_hash content = content

abbrev in_order : Snapshots → Snapshots
in_order ss = ss

abbrev empty_disk : Disk
empty_disk = record {
  has_root = false;
  metadata = missing;
  files = (codes "/c", codes "alpha") ∷ (codes "/d", codes "beta") ∷ [];
}

abbrev manager : Manager
manager = record {
  is_enabled = true;
  storage = record {
    base_dir = codes "/h";
    config_type = ConfigType.global_config;
    project_path = [];
  };
}

abbrev no_metadata : SnapshotMetadata
no_metadata = record {
  user = [];
  hostname = [];
  command = [];
  config_hash = [];
  tag = [];
  description = [];
}

abbrev options : Str → CreateBackupOptions
options path = record { config_path = path; trigger = Trigger.manual; metadata = no_metadata }

abbrev clock : Clock
clock = record { initialized = 1; created = 2; unix_nano = pos 3; updated = 4 }

abbrev restoring : RestoreOptions
restoring = record {
  target_path = codes "/t";
  backup_before_restore = false;
  force = false;
  validate = true;
}

create_backup-restore_snapshot_example :
    let r =
      create_backup no_hash in_order no_faults clock manager (options (codes "/c")) empty_disk in
    (s : Snapshot) × (r.0 ≡ ok s)
    × Restores
        (codes "/t")
        (codes "alpha")
        true
        (restore_snapshot no_hash in_order no_faults clock manager s.id restoring r.1)
unfolding IsConsistent lookup str_eq codes
create_backup-restore_snapshot_example =
    create_backup-restore_snapshot no_hash in_order clock manager (options (codes "/c"))
      (codes "alpha") (λ ss. Permᴰ.refl ss) empty_disk clock restoring refl refl (λ other e. e)
      (λ index e. absurd (cc e)) (inl refl) refl refl

-- The disk after a backup of the first file.
abbrev backed_up : Disk
backed_up =
    (create_backup no_hash in_order no_faults clock manager (options (codes "/c")) empty_disk).1

backed_up-IsConsistent : IsConsistent no_hash manager.storage backed_up
unfolding IsConsistent
backed_up-IsConsistent =
    create_backup-IsConsistent no_hash in_order no_faults clock manager (options (codes "/c"))
      empty_disk (λ index e. cc e) (λ index e. absurd (cc e))
      (λ content index there e. absurd (cc e))

-- The index cannot be written, and the one that was there stays.
abbrev full_disk : Faults
full_disk = record no_faults {
  write_index = some (codes "no space left");
  left_index = backed_up.metadata;
}

abbrev index_in : Metadata → SnapshotIndex
index_in missing = new_snapshot_index 0
index_in (unreadable e) = new_snapshot_index 0
index_in (unparsable e) = new_snapshot_index 0
index_in (stored index) = index

beta_is_new :
    (content : Str) (index : SnapshotIndex)
    → lookup (codes "/d") backed_up.files ≡ some content
    → backed_up.metadata ≡ stored index
    → lookup
        (generate_snapshot_id no_hash (pos 3) (compute_content_hash no_hash content))
        index.snapshots
      ≡ none
unfolding create_backup lookup str_eq codes generate_snapshot_id compute_content_hash insert add
    initialize load_index find_by_hash new_snapshot_index itoa save
beta_is_new content index there e =
    subst
      (λ i.
        lookup (generate_snapshot_id no_hash (pos 3) (compute_content_hash no_hash content))
          i.snapshots
        ≡ none)
      (ap index_in e)
      (subst
        (λ c.
          lookup (generate_snapshot_id no_hash (pos 3) (compute_content_hash no_hash c))
            (index_in backed_up.metadata).snapshots
          ≡ none)
        (ap (λ o. get_or o []) there) refl)

create_backup-IsConsistent_example :
    IsConsistent no_hash manager.storage
      (create_backup no_hash in_order full_disk clock manager (options (codes "/d")) backed_up).1
unfolding create_backup lookup
create_backup-IsConsistent_example =
    create_backup-IsConsistent no_hash in_order full_disk clock manager (options (codes "/d"))
      backed_up (λ index e. e) backed_up-IsConsistent beta_is_new

apply_retention-IsConsistent_example :
    IsConsistent no_hash manager.storage
      (apply_retention in_order
        (λ s chains. chains)
        (λ s. 9)
        no_faults
        clock
        manager
        (some (RetentionPolicy.size_policy (pos 3)))
        backed_up).1
apply_retention-IsConsistent_example =
    apply_retention-IsConsistent no_hash in_order (λ s chains. chains) (λ s. 9) no_faults clock
      manager (λ ss. Permᴰ.refl ss) (λ index e. cc e) (some (RetentionPolicy.size_policy (pos 3)))
      backed_up backed_up-IsConsistent

-- The only chain is larger than 3 bytes, and goes, from the files and from the index.
apply_retention_removes :
    (apply_retention in_order
      (λ s chains. chains)
      (λ s. 9)
      no_faults
      clock
      manager
      (some (RetentionPolicy.size_policy (pos 3)))
      backed_up).0
    ≡ ok (record {
      snapshots_removed = 1;
      chains_removed = 1;
      bytes_freed = 5;
      removed_snapshots = codes "3-alpha" ∷ [];
    })
unfolding apply_retention create_backup lookup str_eq codes initialize find_by_hash
    new_snapshot_index save add insert sort add_to_chain generate_chain_id generate_snapshot_id itoa
apply_retention_removes = refl

abbrev snapshot : (id : Str) → (size timestamp : ℕ) → Snapshot
snapshot id size timestamp = record {
  id = id;
  sequence_num = pos 1;
  timestamp = timestamp;
  config_path = codes "/c";
  config_type = ConfigType.global_config;
  trigger = Trigger.manual;
  storage_type = StorageType.full;
  storage_path = codes "/s";
  size = size;
  checksum = codes "alpha";
  chain_id = id;
  base_snapshot_id = [];
  patch_from = [];
  metadata = record no_metadata { config_hash = codes "alpha" };
}

abbrev three_snapshots : List Snapshot
three_snapshots =
    snapshot (codes "a") 5 2 ∷ snapshot (codes "b") 4 1 ∷ snapshot (codes "c") 3 3 ∷ []

sum_sizes-retains_size_example :
    sum_sizes (
      filter
        (λ s.
          should_retain
            (λ chains. chains)
            (RetentionPolicy.size_policy (pos 9))
            s
            (record {
              all_snapshots = three_snapshots;
              chain = [];
              total_size = sum_sizes three_snapshots;
              now = 9;
            }))
        three_snapshots)
    ≤ 9
sum_sizes-retains_size_example =
    sum_sizes-retains_size (λ chains. chains) (λ chains. Permᴰ.refl chains) three_snapshots 9
      (λ s. []) (λ s. 9)

-- A snapshot whose file has other content than its hash says, and a restore that wants a backup.
abbrev corrupted : Disk
corrupted = record empty_disk {
  files = (codes "/s", codes "beta") ∷ (codes "/t", codes "old") ∷ [];
}

abbrev backing_up : RestoreOptions
backing_up = record restoring { backup_before_restore = true }

corrupted_test :
    restore no_hash in_order no_faults clock manager (snapshot (codes "a") 5 2) backing_up corrupted
    ≡ (err checksum_mismatch, corrupted)
unfolding restore lookup str_eq codes load
corrupted_test = refl

abbrev intact : Disk
intact = record empty_disk { files = (codes "/s", codes "alpha") ∷ (codes "/t", codes "old") ∷ [] }

restore-IsRestored_example :
    let s = snapshot (codes "a") 5 2 in
    let (r, disk) = restore no_hash in_order no_faults clock manager s backing_up intact in
    (Fails r × (disk ≡ intact))
    ⊎ (HasHash no_hash s.storage_path s.metadata.config_hash intact
        × Ends no_hash in_order no_faults clock manager s backing_up refl (r, disk))
restore-IsRestored_example =
    restore-IsRestored no_hash in_order no_faults clock manager (snapshot (codes "a") 5 2)
      backing_up refl intact

chain_after_two :
    generate_chain_id (snapshot (codes "chain-7") 0 0 ∷ snapshot (codes "chain-x") 0 0 ∷ [])
    ≡ codes "chain-8"
unfolding generate_chain_id codes itoa has_prefix trim_prefix
chain_after_two = refl

project_path :
    determine_config_type (codes "/home/a/.klaudiush/config.toml") ≡ ConfigType.project_config
unfolding determine_config_type codes str_eq
project_path = refl

sanitized : sanitize_path (codes "/home/a/repo") ≡ codes "home_a_repo"
unfolding sanitize_path codes
sanitized = refl
