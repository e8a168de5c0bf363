-- ===== src/Backup/Verified.antt =====
-- What a restore with validation leaves, whatever the file system refuses (restore.go).
use mathlib.Core.Path.{subst}
use klaudiush.Prelude.{
  ◌≡◌, refl, sym, ap, ◌∙◌, ◌⊎◌, inl, inr, true, false, Option, none, some, length, Bool-cases,
  Option-cases,
}
use klaudiush.Prelude.Bytes.{Str, is_empty, str_eq}
use klaudiush.Prelude.Bytes.Laws.{str_eq_iff}
use klaudiush.Prelude.Maps.{lookup}
use klaudiush.Prelude.Maps.Laws.{lookup-insert_same}
use klaudiush.Backup.{Snapshot, Snapshots, is_patch, compute_content_hash}
use klaudiush.Backup.Storage.{
  Error, Outcome, err, ok, Disk, Faults, load, write_file, failed, target_path_required,
  checksum_mismatch, patch_not_implemented,
}
use klaudiush.Backup.Manager.{Manager, Clock}
use klaudiush.Backup.Restore.{
  RestoreOptions, RestoreResult, restore, restore_validated, restore_backed_up, validate_snapshot,
  validate_loaded, write_restored, restored, target, wants_backup,
}

-- An outcome that is an error.
abbrev pub Fails {ℓ} : {A : Type ℓ} → Outcome A → Type ℓ
Fails o = (e : Error) × (o ≡ err e)

-- The file at the path has a content with the hash.
pub record HasHash (sha256_hex : Str → Str) (path hash : Str) (disk : Disk) : Type 0 where
  pub content : Str
  pub there : lookup path disk.files ≡ some content
  pub hashed : sha256_hex content ≡ hash

-- The restore succeeds, and the file that it names has the content that the hash says.
pub record IsRestored (sha256_hex : Str → Str) (path hash : Str)
    (out : Outcome RestoreResult × Disk) : Type 0 where
  pub result : RestoreResult
  pub succeeded : out.0 ≡ ok result
  pub verified : result.checksum_verified ≡ true
  pub named : result.restored_path ≡ path
  pub written : HasHash sha256_hex path hash out.1
  pub measured : result.bytes_restored ≡ length written.content

write_file-lookup :
    (faults : Faults) (path content : Str) (disk : Disk)
    → (write_file faults path content disk).0 ≡ ok tt
    → lookup path (write_file faults path content disk).1.files ≡ some content
unfolding write_file
write_file-lookup faults path content disk wrote = elim (Option-cases (faults.write path)) [
  | inl writes ↦ rw (writes, write_file) (lookup-insert_same path content disk.files)
  | inr (e, refused) ↦ absurd (cc (rw (refused, write_file) at wrote))
]

module _ (sha256_hex : Str → Str) (visit : Snapshots → Snapshots) (faults : Faults) (clock : Clock)
    (m : Manager) (s : Snapshot) (opts : RestoreOptions) (validated : opts.validate ≡ true) where
  abbrev pub Ends : Outcome RestoreResult × Disk → Type 0
  Ends out =
      Fails out.0
      ⊎ IsRestored sha256_hex (target sha256_hex visit faults clock m s opts) s.metadata.config_hash
          out

  restored-Ends :
      (content : Str) (backup : Option Snapshot) (out : Outcome (Unit {0}) × Disk)
      → sha256_hex content ≡ s.metadata.config_hash
      → (out.0 ≡ ok tt
          → lookup (target sha256_hex visit faults clock m s opts) out.1.files ≡ some content)
      → Ends (restored sha256_hex visit faults clock m s opts content backup out)
  restored-Ends content backup (err e, disk) hashed wrote = inl (e, refl)
  restored-Ends content backup (ok done, disk) hashed wrote = inr (record {
    result = record {
      restored_path = target sha256_hex visit faults clock m s opts;
      backup_snapshot = backup;
      bytes_restored = length content;
      checksum_verified = opts.validate;
    };
    succeeded = refl;
    verified = validated;
    named = refl;
    written = record { content = content; there = wrote refl; hashed = hashed };
    measured = refl;
  })

  write_restored-Ends :
      (backup : Option Snapshot) (o : Outcome Str) (disk : Disk)
      → Ends (write_restored sha256_hex visit faults clock m s opts backup o disk)
  unfolding write_restored compute_content_hash
  write_restored-Ends backup (err e) disk = inl (e, refl)
  write_restored-Ends backup (ok content) disk =
      elim (Bool-cases (str_eq (sha256_hex content) s.metadata.config_hash)) [
        | inr other ↦ inl (checksum_mismatch, simp (write_restored, validated, other))
        | inl same ↦ elim (Option-cases faults.mkdir) [
          | inr (e, refused) ↦ inl (failed e, simp (write_restored, validated, same, refused))
          | inl made ↦
              let path = target sha256_hex visit faults clock m s opts in
              subst Ends (sym (simp (write_restored, validated, same, made))) (
                restored-Ends content backup (write_file faults path content disk)
                  ((str_eq_iff _ _).0 same) (write_file-lookup faults path content disk))
        ]
      ]

  backed_up-Ends :
      (out : Outcome Snapshot × Disk)
      → Ends (restore_backed_up sha256_hex visit faults clock m s opts out)
  unfolding restore_backed_up
  backed_up-Ends (err e, disk) = inl (e, refl)
  backed_up-Ends (ok backup, disk) = write_restored-Ends (some backup) _ disk

  valid-Ends :
      (disk : Disk) → Ends (restore_validated sha256_hex visit faults clock m s opts (ok tt) disk)
  unfolding restore_validated
  valid-Ends disk = elim (Bool-cases (wants_backup sha256_hex visit faults clock m s opts disk)) [
    | inl wanted ↦ rw wanted (backed_up-Ends _)
    | inr straight ↦ rw straight (write_restored-Ends none _ disk)
  ]

  load_lem :
      (content : Str) (disk : Disk)
      → load faults s.storage_path disk ≡ ok content
      → lookup s.storage_path disk.files ≡ some content
  unfolding load
  load_lem content disk loaded = elim (Option-cases (faults.read s.storage_path)) [
    | inr (e, refused) ↦ absurd (cc (rw (refused, load) at loaded))
    | inl reads ↦ elim (Option-cases (lookup s.storage_path disk.files)) [
      | inl absent ↦ absurd (cc (rw (reads, absent, load) at loaded))
      | inr (found, there) ↦ there ∙ cc (rw (reads, there, load) at loaded)
    ]
  ]

  -- A snapshot that passes the validation has its content on the disk.
  validate_loaded-HasHash :
      (o : Outcome Str) (disk : Disk)
      → load faults s.storage_path disk ≡ o
      → Fails (validate_loaded sha256_hex s o)
        ⊎ ((validate_loaded sha256_hex s o ≡ ok tt)
            × HasHash sha256_hex s.storage_path s.metadata.config_hash disk)
  unfolding validate_loaded compute_content_hash
  validate_loaded-HasHash (err e) disk loaded = inl (e, refl)
  validate_loaded-HasHash (ok content) disk loaded =
      elim (Bool-cases (str_eq (sha256_hex content) s.metadata.config_hash)) [
        | inr other ↦ inl (checksum_mismatch, simp (validate_loaded, other))
        | inl same ↦ elim (Bool-cases (is_patch s)) [
          | inl patch ↦ inl (patch_not_implemented, simp (validate_loaded, same, patch))
          | inr full ↦ inr (
            simp (validate_loaded, same, full),
            record {
              content = content;
              there = load_lem content disk loaded;
              hashed = (str_eq_iff _ _).0 same;
            },
          )
        ]
      ]

  validated-eq :
      (disk : Disk)
      → is_empty (target sha256_hex visit faults clock m s opts) ≡ false
      → restore sha256_hex visit faults clock m s opts disk
        ≡ restore_validated sha256_hex visit faults clock m s opts
            (validate_snapshot sha256_hex faults s disk)
            disk
  unfolding restore
  validated-eq disk given = simp (restore, given, validated)

  -- With validation, whatever the file system refuses, and whether or not a backup is to come first:
  -- a restore fails and leaves the disk as it was, or the file of the snapshot had a content with the
  -- snapshot's hash. Then the restore fails, or it succeeds, and the file at the target has a content
  -- with that hash, of the length that is reported.
  pub restore-IsRestored :
      (disk : Disk)
      → (Fails (restore sha256_hex visit faults clock m s opts disk).0
          × ((restore sha256_hex visit faults clock m s opts disk).1 ≡ disk))
        ⊎ (HasHash sha256_hex s.storage_path s.metadata.config_hash disk
            × Ends (restore sha256_hex visit faults clock m s opts disk))
  unfolding restore validate_snapshot restore_validated
  restore-IsRestored disk =
      elim (Bool-cases (is_empty (target sha256_hex visit faults clock m s opts))) [
        | inl nowhere ↦ rw nowhere (inl ((target_path_required, refl), refl))
        | inr given ↦ elim (validate_loaded-HasHash (load faults s.storage_path disk) disk refl) [
          | inl (e, invalid) ↦
              let refused =
                validated-eq disk given
                ∙ ap (λ o. restore_validated sha256_hex visit faults clock m s opts o disk)
                    invalid in
              inl (
                (e, ap (λ (out : Outcome RestoreResult × Disk). out.0) refused),
                ap (λ (out : Outcome RestoreResult × Disk). out.1) refused,
              )
          | inr (valid, there) ↦
              let passed =
                validated-eq disk given
                ∙ ap (λ o. restore_validated sha256_hex visit faults clock m s opts o disk) valid in
              inr (there, subst Ends (sym passed) (valid-Ends disk))
        ]
      ]
