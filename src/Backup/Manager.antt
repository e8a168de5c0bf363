-- ===== src/Backup/Manager.antt =====
-- internal/backup/manager.go: creating, listing and pruning snapshots.
-- The audit log is best-effort and left out. The configuration says only whether backups are enabled.
use klaudiush.Prelude.{
  ℕ, ◌+◌, ◌-◌, ◌*◌, Bool, false, ◌&&◌, Option, none, some, List, [], ◌∷◌, ◌++◌, ltb, leb, ◌==◌, any,
  length, if◌then◌else◌,
}
use klaudiush.Prelude.Bytes.{Str, codes, str_eq, has_prefix, trim_prefix}
use klaudiush.Prelude.Bytes.Text.{itoa}
use klaudiush.Prelude.Int.{ℤ, pos, ◌+ℤ◌, ltb_ℤ}
use klaudiush.Prelude.Maps.{lookup}
use klaudiush.Backup.{
  Time, StorageType, ConfigType, Trigger, Snapshot, Snapshots, SnapshotMetadata, SnapshotIndex, add,
  get, list, find_by_hash, get_chain, generate_snapshot_id, compute_content_hash,
}
use klaudiush.Backup.Storage.{
  Error, content_or, Outcome, err, ok, Disk, Faults, FilesystemStorage, initialize, load_index,
  save_index, save, backup_disabled, config_file_not_found, snapshot_not_found, failed,
}

abbrev is_digit : ℕ → Bool
is_digit c = leb b'0' c && leb c b'9'

-- `%d` without a sign: the digits in front, and whether there are any.
digits : ℕ → Str → ℕ
digits n [] = n
digits n (c ∷ s) = if is_digit c then digits (10 * n + (c - b'0')) s else n

abbrev starts_with_digit : Str → Bool
starts_with_digit [] = false
starts_with_digit (c ∷ s) = is_digit c

-- `fmt.Sscanf(id, "chain-%d", &n)`, and 0 where it fails or reads a negative number, which are both never
-- greater than the maximum. The number is one that an int holds.
unfoldable pub chain_number : Str → ℕ
unfolding digits
chain_number id =
    let rest = trim_prefix id (codes "chain-") in
    let number = trim_prefix rest (codes "+") in
    if has_prefix id (codes "chain-") && starts_with_digit number then digits 0 number else 0

unfoldable pub max_chain_number : List Snapshot → ℕ
unfolding chain_number
max_chain_number [] = 0
max_chain_number (s ∷ ss) =
    let n = chain_number s.chain_id in
    let rest = max_chain_number ss in if ltb rest n then n else rest

unfoldable pub generate_chain_id : List Snapshot → Str
unfolding max_chain_number
generate_chain_id [] = codes "chain-1"
generate_chain_id (s ∷ ss) = codes "chain-" ++ itoa (pos (max_chain_number (s ∷ ss) + 1))

-- The greatest sequence number that is positive, or 0.
unfoldable pub max_sequence_number : List Snapshot → ℤ
max_sequence_number [] = pos 0
max_sequence_number (s ∷ ss) =
    let rest = max_sequence_number ss in if ltb_ℤ rest s.sequence_num then s.sequence_num else rest

unfoldable pub next_sequence_number : (chain : List Snapshot) → ℤ
unfolding max_sequence_number ◌+ℤ◌
next_sequence_number [] = pos 1
next_sequence_number (s ∷ ss) = max_sequence_number (s ∷ ss) +ℤ pos 1

abbrev cons_part : ℕ → List Str → List Str
cons_part c [] = (c ∷ []) ∷ []
cons_part c (part ∷ parts) = (c ∷ part) ∷ parts

-- `strings.SplitSeq(path, "/")`
unfoldable pub path_parts : Str → List Str
path_parts [] = [] ∷ []
path_parts (c ∷ path) =
    let parts = path_parts path in if c == b'/' then [] ∷ parts else cons_part c parts

-- Of a clean path.
unfoldable pub determine_config_type : Str → ConfigType
unfolding path_parts
determine_config_type path =
    if any (λ part. str_eq part (codes ".klaudiush")) (path_parts path)
    then ConfigType.project_config
    else ConfigType.global_config

pub record CreateBackupOptions : Type 0 where
  pub config_path : Str
  pub trigger : Trigger
  pub metadata : SnapshotMetadata

-- The clock's readings: of an index that is made, of the snapshot, and of the index that is saved. The
-- one of the snapshot comes with its Unix time.
pub record Clock : Type 0 where
  pub initialized : Time
  pub created : Time
  pub unix_nano : ℤ
  pub updated : Time

-- What the manager is made of: whether backups are enabled, and the storage.
pub record Manager : Type 0 where
  pub is_enabled : Bool
  pub storage : FilesystemStorage

-- `os.ReadFile` of the configuration file
unfoldable pub read_config : Faults → Str → Disk → Outcome Str
read_config faults path disk = elim (faults.read path) [
  | some e ↦ err (failed e)
  | none ↦ content_or (config_file_not_found path) (lookup path disk.files)
]

-- `if !m.storage.Exists() { m.storage.Initialize() }`
unfoldable pub ensure_initialized : Faults → Time → Disk → Outcome (Unit {0}) × Disk
ensure_initialized faults now disk =
    if disk.has_root then (ok tt, disk) else initialize faults now disk

unfoldable pub create_snapshot_record :
    (id : Str)
    → ℤ
    → Time
    → (storage_path : Str) → ℕ
    → (content_hash chain_id : Str) → CreateBackupOptions
    → Snapshot
unfolding determine_config_type
create_snapshot_record id sequence_num timestamp storage_path size content_hash chain_id opts =
    record {
      id = id;
      sequence_num = sequence_num;
      timestamp = timestamp;
      config_path = opts.config_path;
      config_type = determine_config_type opts.config_path;
      trigger = opts.trigger;
      storage_type = StorageType.full;
      storage_path = storage_path;
      size = size;
      checksum = content_hash;
      chain_id = chain_id;
      base_snapshot_id = [];
      patch_from = [];
      metadata = record opts.metadata { config_hash = content_hash };
    }

-- `visit` is the order in which the ranges over the index visit its map.
module _ (sha256_hex : Str → Str) (visit : Snapshots → Snapshots) (faults : Faults) (clock : Clock)
    (m : Manager) (opts : CreateBackupOptions) where
  -- The snapshot of new content at a storage path.
  unfoldable pub snapshot_of : (content storage_path : Str) → SnapshotIndex → Snapshot
  unfolding create_snapshot_record compute_content_hash
  snapshot_of content storage_path index =
      let snapshots = visit index.snapshots in
      let hash = compute_content_hash sha256_hex content in
      let chain_id = generate_chain_id (list snapshots) in
      create_snapshot_record (generate_snapshot_id sha256_hex clock.unix_nano hash)
        (next_sequence_number (get_chain snapshots chain_id)) clock.created storage_path
        (length content) hash chain_id opts

  unfoldable pub snapshot_name : (content : Str) → Str
  snapshot_name content =
      generate_snapshot_id sha256_hex clock.unix_nano (compute_content_hash sha256_hex content)
      ++ codes ".full.toml"

  abbrev pub returned : Snapshot → Outcome (Unit {0}) × Disk → Outcome Snapshot × Disk
  returned s (err e, disk) = (err e, disk)
  returned s (ok done, disk) = (ok s, disk)

  -- `saveSnapshotToIndex`
  unfoldable pub save_snapshot_to_index : Snapshot → SnapshotIndex → Disk → Outcome Snapshot × Disk
  save_snapshot_to_index s index disk =
      returned s (save_index faults (add clock.updated s index) disk)

  -- `CreateBackup` from the saving of the content on.
  unfoldable pub record_saved :
      (content : Str) → SnapshotIndex → Outcome Str × Disk → Outcome Snapshot × Disk
  unfolding save_snapshot_to_index snapshot_of
  record_saved content index (err e, disk) = (err e, disk)
  record_saved content index (ok path, disk) =
      save_snapshot_to_index (snapshot_of content path index) index disk

  -- From the test for the same content on, by what has that content.
  unfoldable pub create_unless :
      Option Snapshot → (content : Str) → SnapshotIndex → Disk → Outcome Snapshot × Disk
  unfolding record_saved snapshot_name
  create_unless (some existing) content index disk = (ok existing, disk)
  create_unless none content index disk =
      record_saved content index (save m.storage faults (snapshot_name content) content disk)

  -- From the loading of the index on.
  unfoldable pub create_indexed :
      (content : Str) → Outcome SnapshotIndex → Disk → Outcome Snapshot × Disk
  unfolding create_unless
  create_indexed content (err e) disk = (err e, disk)
  create_indexed content (ok index) disk =
      create_unless (find_by_hash (visit index.snapshots) (compute_content_hash sha256_hex content))
        content index disk

  -- From the initialization of the storage on.
  unfoldable pub create_initialized :
      (content : Str) → Outcome (Unit {0}) × Disk → Outcome Snapshot × Disk
  unfolding create_indexed
  create_initialized content (err e, disk) = (err e, disk)
  create_initialized content (ok done, disk) =
      create_indexed content (load_index clock.initialized disk.metadata) disk

  -- From the reading of the file on.
  unfoldable pub create_read : Outcome Str → Disk → Outcome Snapshot × Disk
  unfolding create_initialized ensure_initialized
  create_read (err e) disk = (err e, disk)
  create_read (ok content) disk =
      create_initialized content (ensure_initialized faults clock.initialized disk)

  unfoldable pub create_backup : Disk → Outcome Snapshot × Disk
  unfolding create_read read_config
  create_backup disk =
      if m.is_enabled
      then create_read (read_config faults opts.config_path disk) disk
      else (err backup_disabled, disk)

-- `none` in an index is `ErrSnapshotNotFound`.
abbrev pub snapshot_or : Error → Option Snapshot → Outcome Snapshot
snapshot_or e none = err e
snapshot_or e (some s) = ok s

abbrev pub found_in : Str → Outcome SnapshotIndex → Outcome Snapshot
found_in id (err e) = err e
found_in id (ok index) = snapshot_or (snapshot_not_found id) (get id index)

unfoldable pub get_snapshot : Manager → Time → Str → Disk → Outcome Snapshot
unfolding get
get_snapshot m now id disk =
    if m.is_enabled
    then (if disk.has_root
        then found_in id (load_index now disk.metadata)
        else err (snapshot_not_found []))
    else err backup_disabled

abbrev pub listed : (Snapshots → Snapshots) → Outcome SnapshotIndex → Outcome (List Snapshot)
listed visit (err e) = err e
listed visit (ok index) = ok (list (visit index.snapshots))

unfoldable pub list_snapshots :
    (visit : Snapshots → Snapshots) → Manager → Time → Disk → Outcome (List Snapshot)
unfolding list
list_snapshots visit m now disk =
    if m.is_enabled
    then (if disk.has_root then listed visit (load_index now disk.metadata) else ok [])
    else err backup_disabled
