-- ===== src/Backup/Consistency.antt =====
-- The index and the stored files together: every snapshot of the index is in its file, with the content
-- whose hash the index has. Creating a backup keeps it, whatever the file system refuses.
pub mod Creation
use mathlib.Core.List.{append_cancel_left, append_cancel_right}
use mathlib.Core.Path.{subst}
use klaudiush.Prelude.{
  ◌≡◌, ◌≢◌, refl, sym, ap, ◌∙◌, ◌⊎◌, inl, inr, Bool, true, false, Option, none, some, List, [], ◌∷◌,
  ◌++◌, arith, Bool-cases, Option-cases, if◌then◌else◌,
}
use klaudiush.Prelude.Bytes.{Str, codes, str_eq}
use klaudiush.Prelude.Bytes.Laws.{str_eq_refl, str_eq_iff}
use klaudiush.Prelude.Maps.{lookup, insert, DistinctKeys}
use klaudiush.Prelude.Maps.Laws.{
  lookup-insert_same, lookup-insert_other, inserted_unique, insert-DistinctKeys,
}
use klaudiush.Backup.{
  Time, Snapshot, Snapshots, SnapshotIndex, StorageType, add, compute_content_hash,
  generate_snapshot_id,
}
use klaudiush.Backup.Storage.{
  Outcome, err, ok, Disk, Metadata, Faults, missing, stored, unreadable, unparsable, snapshots_dir,
  join_path, write_file, put_left, save, save_index, FilesystemStorage, failed,
}

-- The file of a snapshot, by its ID.
abbrev pub file_of : FilesystemStorage → (id : Str) → Str
file_of f id = join_path (snapshots_dir f) (id ++ codes ".full.toml")

pub file_of_injective : (f : FilesystemStorage) (a b : Str) → file_of f a ≡ file_of f b → a ≡ b
unfolding join_path
file_of_injective f a b e =
    append_cancel_right a b (codes ".full.toml")
      (cc (append_cancel_left (snapshots_dir f) (b'/' ∷ a ++ codes ".full.toml") _ e))

module _ (sha256_hex : Str → Str) (f : FilesystemStorage) where
  -- An entry of the index, with its file.
  pub record IsKept (files : List (Str × Str)) (id : Str) (s : Snapshot) : Type 0 where
    pub keyed : id ≡ s.id
    pub full : s.storage_type ≡ StorageType.full
    pub placed : s.storage_path ≡ file_of f s.id
    pub content : Str
    pub there : lookup s.storage_path files ≡ some content
    pub hashed : sha256_hex content ≡ s.metadata.config_hash

  pub record IsConsistentIndex (disk : Disk) (index : SnapshotIndex) : Type 0 where
    pub rooted : disk.has_root ≡ true
    pub distinct : DistinctKeys index.snapshots
    pub kept :
        (id : Str) (s : Snapshot) → lookup id index.snapshots ≡ some s → IsKept disk.files id s

  -- An index file that can be read has only such entries.
  unfoldable pub IsConsistent : Disk → Type 0
  IsConsistent disk =
      (index : SnapshotIndex) → disk.metadata ≡ stored index → IsConsistentIndex disk index

  -- A file of another snapshot may change.
  insert-IsKept :
      (files : List (Str × Str)) (id other content : Str) (s : Snapshot)
      → id ≢ other
      → IsKept files id s
      → IsKept (insert (file_of f other) content files) id s
  insert-IsKept files id other content s differs k =
      elim (Bool-cases (str_eq (file_of f other) s.storage_path)) [
        | inl same ↦
            let ids = file_of_injective f other s.id ((str_eq_iff _ _).0 same ∙ k.placed) in
            absurd (differs (k.keyed ∙ sym ids))
        | inr apart ↦ record {
          keyed = k.keyed;
          full = k.full;
          placed = k.placed;
          content = k.content;
          hashed = k.hashed;
          there =
              lookup-insert_other (file_of f other) s.storage_path content files apart ∙ k.there;
        }
      ]

  put_left-IsKept :
      (files : List (Str × Str)) (id other : Str) (left : Option Str) (s : Snapshot)
      → id ≢ other
      → IsKept files id s
      → IsKept (put_left (file_of f other) left files) id s
  put_left-IsKept files id other none s differs k = k
  put_left-IsKept files id other (some content) s differs k =
      insert-IsKept files id other content s differs k

  -- Files of another snapshot may change, and the index file may stay.
  put_left-IsConsistent :
      (disk : Disk) (id : Str) (left : Option Str)
      → ((index : SnapshotIndex) → disk.metadata ≡ stored index → lookup id index.snapshots ≡ none)
      → IsConsistent disk
      → IsConsistent (record disk { files = put_left (file_of f id) left disk.files })
  unfolding IsConsistent
  put_left-IsConsistent disk id left fresh c index e =
      let i = c index e in
      record {
        rooted = i.rooted;
        distinct = i.distinct;
        kept = λ k s l.
            put_left-IsKept disk.files k id left s (λ same. absurd (cc (same, l, fresh index e)))
              (i.kept k s l);
      }

  -- A new entry whose content is in its file.
  add-IsConsistentIndex :
      (now : Time) (disk : Disk) (index : SnapshotIndex) (s : Snapshot) (content : Str)
      → lookup s.id index.snapshots ≡ none
      → s.storage_type ≡ StorageType.full
      → s.storage_path ≡ file_of f s.id
      → sha256_hex content ≡ s.metadata.config_hash
      → IsConsistentIndex disk index
      → IsConsistentIndex
          (record disk {
            metadata = stored (add now s index);
            files = insert (file_of f s.id) content disk.files;
          })
          (add now s index)
  unfolding add
  add-IsConsistentIndex now disk index s content fresh full placed hashed i = record {
    rooted = i.rooted;
    distinct = insert-DistinctKeys s.id s index.snapshots i.distinct;
    kept = λ k t l. elim (Bool-cases (str_eq s.id k)) [
      | inl same ↦
          let id = (str_eq_iff s.id k).0 same in
          subst (λ u. IsKept (insert (file_of f s.id) content disk.files) k u)
            (inserted_unique s.id k s t index.snapshots same l)
            (record {
              keyed = sym id;
              full = full;
              placed = placed;
              content = content;
              there = rw placed (lookup-insert_same (file_of f s.id) content disk.files);
              hashed = hashed;
            })
      | inr other ↦
          insert-IsKept disk.files k s.id content t (λ e. absurd (cc (e, other, str_eq_refl k)))
            (i.kept k t (sym (lookup-insert_other s.id k s index.snapshots other) ∙ l))
    ];
  }
