-- ===== src/Backup.antt =====
-- internal/backup: snapshots of configuration files, their index, storage, restoring and retention.
-- snapshot.go: the snapshots and the index. A time is the number of nanoseconds since Go's zero time.
pub mod Storage
pub mod Manager
pub mod Restore
pub mod Retention
pub mod Pruning
pub mod Stored
pub mod Verified
pub mod Consistency
pub mod Recovery
pub mod Tests
use klaudiush.Prelude.{
  ℕ, Bool, true, false, ◌&&◌, Option, none, some, List, [], ◌∷◌, ◌++◌, filter, map, take,
  if◌then◌else◌,
}
use klaudiush.Prelude.Bytes.{Str, codes, str_eq}
use klaudiush.Prelude.Bytes.Text.{itoa}
use klaudiush.Prelude.Int.{ℤ}
use klaudiush.Prelude.Maps.{lookup, insert, delete}

abbrev pub Time : Type 0
Time = ℕ

pub data StorageType : Type 0 where
  full patch : StorageType

pub data ConfigType : Type 0 where
  global_config project_config : ConfigType

pub data Trigger : Type 0 where
  manual automatic before_init migration : Trigger

pub record SnapshotMetadata : Type 0 where
  pub user : Str
  pub hostname : Str
  pub command : Str
  pub config_hash : Str
  pub tag : Str
  pub description : Str

pub record Snapshot : Type 0 where
  pub id : Str
  pub sequence_num : ℤ
  pub timestamp : Time
  pub config_path : Str
  pub config_type : ConfigType
  pub trigger : Trigger
  pub storage_type : StorageType
  pub storage_path : Str
  pub size : ℕ
  pub checksum : Str
  pub chain_id : Str
  pub base_snapshot_id : Str
  pub patch_from : Str
  pub metadata : SnapshotMetadata

abbrev pub Snapshots : Type 0
Snapshots = List (Str × Snapshot)

pub record SnapshotIndex : Type 0 where
  pub version : ℕ
  pub updated : Time
  pub snapshots : Snapshots

abbrev pub is_full_type : StorageType → Bool
is_full_type StorageType.full = true
is_full_type StorageType.patch = false

unfoldable pub is_full : Snapshot → Bool
is_full s = is_full_type s.storage_type

unfoldable pub is_patch : Snapshot → Bool
is_patch s = elim s.storage_type [ full ↦ false | patch ↦ true ]

unfoldable pub is_global : Snapshot → Bool
is_global s = elim s.config_type [ global_config ↦ true | project_config ↦ false ]

unfoldable pub is_project : Snapshot → Bool
is_project s = elim s.config_type [ global_config ↦ false | project_config ↦ true ]

unfoldable pub new_snapshot_index : Time → SnapshotIndex
new_snapshot_index now = record { version = 1; updated = now; snapshots = [] }

unfoldable pub add : Time → Snapshot → SnapshotIndex → SnapshotIndex
add now snapshot idx = record idx {
  snapshots = insert snapshot.id snapshot idx.snapshots;
  updated = now;
}

-- `none` stands for `ErrSnapshotNotFound`.
unfoldable pub get : Str → SnapshotIndex → Option Snapshot
get id idx = lookup id idx.snapshots

-- Whether the snapshot was there, and the index.
unfoldable pub delete_snapshot : Time → Str → SnapshotIndex → Bool × SnapshotIndex
delete_snapshot now id idx = elim (lookup id idx.snapshots) [
  | none ↦ (false, idx)
  | some s ↦ (true, record idx { snapshots = delete id idx.snapshots; updated = now })
]

-- The snapshots of a map's entries, in the order in which a range visits them.
unfoldable pub list : (order : Snapshots) → List Snapshot
list order = map (λ e. e.1) order

-- The first snapshot that a range finds with that hash.
unfoldable pub find_by_hash : (order : Snapshots) → Str → Option Snapshot
find_by_hash [] hash = none
find_by_hash ((id, s) ∷ order) hash =
    if str_eq s.metadata.config_hash hash then some s else find_by_hash order hash

unfoldable pub get_chain : (order : Snapshots) → Str → List Snapshot
unfolding list
get_chain order chain_id = filter (λ s. str_eq s.chain_id chain_id) (list order)

-- SHA-256 in hexadecimal is an argument.
module _ (sha256_hex : Str → Str) where
  -- `timestamp.UnixNano()` is `unix_nano`.
  unfoldable pub generate_snapshot_id : (unix_nano : ℤ) → (content_hash : Str) → Str
  generate_snapshot_id unix_nano content_hash =
      take 16 (sha256_hex (itoa unix_nano ++ b'-' ∷ content_hash))

  unfoldable pub compute_content_hash : Str → Str
  compute_content_hash content = sha256_hex content
