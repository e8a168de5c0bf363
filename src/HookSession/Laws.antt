-- ===== src/HookSession/Laws.antt =====
-- How often each finding is counted, and that each is listed once.
use klaudiush.Prelude.{
  ℕ, ◌+◌, ◌≡◌, refl, inl, inr, ◌||◌, Option, none, some, List, [], ◌∷◌, arith, if◌then◌else◌,
  Bool-cases,
}
use klaudiush.Prelude.Bytes.{Str, str_eq}
use klaudiush.Prelude.Bytes.Laws.{str_eq_iff}
use klaudiush.Prelude.Named.{has_name, Distinct}
use klaudiush.Hook.{Context}
use klaudiush.Dispatcher.Errors.{ValidationError}
use klaudiush.HookSession.{Time, Finding}
use klaudiush.HookSession.Findings.{
  identity_key, finding_from_validation_error, seen_again, upsert, upsert_finding, upsert_all,
}

-- How often a finding of that identity was counted.
abbrev pub occurrences : Str → List Finding → ℕ
occurrences id [] = 0
occurrences id (f ∷ fs) = (if str_eq (identity_key f) id then f.count else 0) + occurrences id fs

-- The errors that are findings of that identity.
abbrev pub reports : Context → Time → Str → List (Option ValidationError) → ℕ
reports hook now id [] = 0
reports hook now id (none ∷ errs) = reports hook now id errs
reports hook now id (some verr ∷ errs) =
    (if str_eq (identity_key (finding_from_validation_error hook verr now)) id then 1 else 0)
    + reports hook now id errs

identity_key-seen_again :
    (item existing : Finding) → identity_key (seen_again item existing) ≡ identity_key existing
unfolding seen_again identity_key
identity_key-seen_again item existing = refl

count-seen_again : (item existing : Finding) → (seen_again item existing).count ≡ existing.count + 1
unfolding seen_again
count-seen_again item existing = refl

count-finding :
    (hook : Context) (verr : ValidationError) (now : Time)
    → (finding_from_validation_error hook verr now).count ≡ 1
unfolding finding_from_validation_error
count-finding hook verr now = refl

occurrences-upsert :
    (id : Str) (item : Finding) (fs : List Finding)
    → item.count ≡ 1
    → occurrences id (upsert item fs)
      ≡ (if str_eq (identity_key item) id then 1 else 0) + occurrences id fs
unfolding upsert
occurrences-upsert id item [] one = rw one refl
occurrences-upsert id item (f ∷ fs) one = ground (
  arith,
  one,
  str_eq_iff (identity_key f) (identity_key item),
  identity_key-seen_again item f,
  count-seen_again item f,
  occurrences-upsert id item fs one,
)

pub occurrences-upsert_all :
    (hook : Context) (now : Time) (id : Str) (errs : List (Option ValidationError))
    (fs : List Finding)
    → occurrences id (upsert_all hook now errs fs) ≡ occurrences id fs + reports hook now id errs
unfolding upsert_all upsert_finding
occurrences-upsert_all hook now id [] fs = omega arith
occurrences-upsert_all hook now id (none ∷ errs) fs = occurrences-upsert_all hook now id errs fs
occurrences-upsert_all hook now id (some verr ∷ errs) fs =
    let item = finding_from_validation_error hook verr now in
    omega (
      arith,
      occurrences-upsert_all hook now id errs (upsert item fs),
      occurrences-upsert id item fs (count-finding hook verr now),
    )

has_name-upsert :
    (id : Str) (item : Finding) (fs : List Finding)
    → has_name identity_key id (upsert item fs)
      ≡ (str_eq (identity_key item) id || has_name identity_key id fs)
unfolding upsert
has_name-upsert id item [] = refl
has_name-upsert id item (f ∷ fs) = ground (
  arith,
  str_eq_iff (identity_key f) (identity_key item),
  identity_key-seen_again item f,
  has_name-upsert id item fs,
)

upsert-Distinct :
    (item : Finding) (fs : List Finding)
    → Distinct identity_key fs
    → Distinct identity_key (upsert item fs)
unfolding upsert
upsert-Distinct item [] d = (refl, tt)
upsert-Distinct item (f ∷ fs) (new, d) =
    elim (Bool-cases (str_eq (identity_key f) (identity_key item))) [
      | inl same ↦ rw same (rw (identity_key-seen_again item f) new, d)
      | inr other ↦ rw other (
        ground (
          arith,
          new,
          other,
          str_eq_iff (identity_key item) (identity_key f),
          str_eq_iff (identity_key f) (identity_key item),
          has_name-upsert (identity_key f) item fs,
        ),
        upsert-Distinct item fs d,
      )
    ]

pub upsert_all-Distinct :
    (hook : Context) (now : Time) (errs : List (Option ValidationError)) (fs : List Finding)
    → Distinct identity_key fs
    → Distinct identity_key (upsert_all hook now errs fs)
unfolding upsert_all upsert_finding
upsert_all-Distinct hook now [] fs d = d
upsert_all-Distinct hook now (none ∷ errs) fs d = upsert_all-Distinct hook now errs fs d
upsert_all-Distinct hook now (some verr ∷ errs) fs d =
    upsert_all-Distinct hook now errs _
      (upsert-Distinct (finding_from_validation_error hook verr now) fs d)
