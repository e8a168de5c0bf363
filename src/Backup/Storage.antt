-- ===== src/Backup/Storage.antt =====
-- internal/backup/storage.go: the storage over the file system.
-- The file system is the contents of files by path and, apart from them, the index file, since JSON
-- brings an index back as it was written. Directories are there once they are made. The index file has
-- a map of snapshots, as every index that the program writes. Paths are clean and absolute.
use klaudiush.Prelude.{
  ℕ, Bool, true, false, ◌==◌, Option, none, some, List, [], ◌∷◌, ◌++◌, map, if◌then◌else◌,
}
use klaudiush.Prelude.Bytes.{Str, codes, is_empty}
use klaudiush.Prelude.Maps.{lookup, insert, delete}
use klaudiush.Backup.{
  Time, ConfigType, global_config, project_config, SnapshotIndex, new_snapshot_index,
}

-- The sentinel errors; `failed` is any other, by its cause.
pub data Error : Type 0 where
  backup_disabled storage_not_initialized checksum_mismatch target_path_required nil_policy
        patch_not_implemented :
      Error
  config_file_not_found snapshot_not_found invalid_path failed : Str → Error

pub data Outcome {ℓ} (A : Type ℓ) : Type ℓ where
  err : Error → Outcome A
  ok : A → Outcome A

pub data Metadata : Type 0 where
  missing : Metadata
  unreadable unparsable : Str → Metadata
  stored : SnapshotIndex → Metadata

pub record Disk : Type 0 where
  pub has_root : Bool
  pub metadata : Metadata
  pub files : List (Str × Str)

-- What the operating system refuses during a call. A failed write leaves something at its path:
-- nothing, or a part of the content.
pub record Faults : Type 0 where
  pub mkdir : Option Str
  pub read : Str → Option Str
  pub write : Str → Option Str
  pub left : Str → Option Str
  pub write_index : Option Str
  pub left_index : Metadata
  pub remove : Str → Option Str

abbrev pub no_faults : Faults
no_faults = record {
  mkdir = none;
  read = λ p. none;
  write = λ p. none;
  left = λ p. none;
  write_index = none;
  left_index = missing;
  remove = λ p. none;
}

pub record FilesystemStorage : Type 0 where
  pub base_dir : Str
  pub config_type : ConfigType
  pub project_path : Str

-- `filepath.Join` of a clean path and a name.
unfoldable pub join_path : Str → Str → Str
join_path dir name = dir ++ b'/' ∷ name

unfoldable pub storage_root : FilesystemStorage → Str
unfolding join_path
storage_root f =
    let backup_dir = join_path f.base_dir (codes ".backups") in
    elim f.config_type [
      | global_config ↦ join_path backup_dir (codes "global")
      | project_config ↦ join_path (join_path backup_dir (codes "projects")) f.project_path
    ]

unfoldable pub snapshots_dir : FilesystemStorage → Str
unfolding storage_root
snapshots_dir f = join_path (storage_root f) (codes "snapshots")

abbrev underscored : ℕ → ℕ
underscored c = if c == b'/' then b'_' else c

-- `SanitizePath` of a path that is absolute and clean.
unfoldable pub sanitize_path : Str → Str
sanitize_path [] = []
sanitize_path (c ∷ path) = if c == b'/' then map underscored path else map underscored (c ∷ path)

unfoldable pub new_filesystem_storage :
    (base_dir : Str) → ConfigType → (project_path : Str) → Outcome FilesystemStorage
unfolding sanitize_path
new_filesystem_storage base_dir config_type project_path =
    if is_empty base_dir
    then err (invalid_path (codes "baseDir cannot be empty"))
    else elim config_type [
      | global_config ↦ ok (record {
        base_dir = base_dir;
        config_type = ConfigType.global_config;
        project_path = sanitize_path project_path;
      })
      | project_config ↦
          if is_empty project_path
          then err (invalid_path (codes "projectPath required for project configs"))
          else ok (record {
            base_dir = base_dir;
            config_type = ConfigType.project_config;
            project_path = sanitize_path project_path;
          })
    ]

-- What a write that may fail leaves.
abbrev pub put_left : Str → Option Str → List (Str × Str) → List (Str × Str)
put_left path none files = files
put_left path (some content) files = insert path content files

-- `os.WriteFile`
unfoldable pub write_file : Faults → Str → Str → Disk → Outcome (Unit {0}) × Disk
write_file faults path content disk = elim (faults.write path) [
  | none ↦ (ok tt, record disk { files = insert path content disk.files })
  | some e ↦ (err (failed e), record disk { files = put_left path (faults.left path) disk.files })
]

unfoldable pub save_index : Faults → SnapshotIndex → Disk → Outcome (Unit {0}) × Disk
save_index faults index disk = elim faults.write_index [
  | none ↦ (ok tt, record disk { metadata = stored index })
  | some e ↦ (err (failed e), record disk { metadata = faults.left_index })
]

unfoldable pub load_index : Time → Metadata → Outcome SnapshotIndex
load_index now missing = ok (new_snapshot_index now)
load_index now (unreadable e) = err (failed e)
load_index now (unparsable e) = err (failed e)
load_index now (stored index) = ok index

-- Whether the index file is there, by `os.Stat`.
abbrev pub is_missing : Metadata → Bool
is_missing missing = true
is_missing (unreadable e) = false
is_missing (unparsable e) = false
is_missing (stored index) = false

unfoldable pub initialize : Faults → Time → Disk → Outcome (Unit {0}) × Disk
unfolding save_index
initialize faults now disk = elim faults.mkdir [
  | some e ↦ (err (failed e), disk)
  | none ↦
      let disk' = record disk { has_root = true } in
      if is_missing disk.metadata
      then save_index faults (new_snapshot_index now) disk'
      else (ok tt, disk')
]

abbrev saved : Str → Outcome (Unit {0}) × Disk → Outcome Str × Disk
saved path (err e, disk) = (err e, disk)
saved path (ok done, disk) = (ok path, disk)

-- The storage path, for a storage that is initialized.
unfoldable pub save : FilesystemStorage → Faults → (name content : Str) → Disk → Outcome Str × Disk
unfolding write_file snapshots_dir
save f faults name content disk =
    let path = join_path (snapshots_dir f) name in
    if disk.has_root
    then saved path (write_file faults path content disk)
    else (err storage_not_initialized, disk)

-- What a lookup of a file's content gives.
abbrev pub content_or : Error → Option Str → Outcome Str
content_or e none = err e
content_or e (some content) = ok content

unfoldable pub load : Faults → Str → Disk → Outcome Str
load faults path disk = elim (faults.read path) [
  | some e ↦ err (failed e)
  | none ↦ content_or (snapshot_not_found path) (lookup path disk.files)
]

abbrev pub deleted : Str → Option Str → Disk → Outcome (Unit {0}) × Disk
deleted path none disk = (err (snapshot_not_found path), disk)
deleted path (some content) disk = (ok tt, record disk { files = delete path disk.files })

unfoldable pub remove : Faults → Str → Disk → Outcome (Unit {0}) × Disk
remove faults path disk = elim (faults.remove path) [
  | some e ↦ (err (failed e), disk)
  | none ↦ deleted path (lookup path disk.files) disk
]
