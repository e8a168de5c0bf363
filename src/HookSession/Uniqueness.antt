-- ===== src/HookSession/Uniqueness.antt =====
-- That no two findings of a session are the same, and the changes that keep it (store.go).
use klaudiush.Prelude.{inl, inr, Option, none, some, List, [], ◌∷◌, All, Bool-cases}
use klaudiush.Prelude.Bytes.{Str, str_eq}
use klaudiush.Prelude.Int.{ℤ}
use klaudiush.Prelude.Maps.{lookup, insert, delete}
use klaudiush.Prelude.Named.{Distinct}
use klaudiush.Prelude.Result.{Result, ok, err}
use klaudiush.Hook.{Context}
use klaudiush.Dispatcher.Errors.{ValidationError}
use klaudiush.HookSession.{
  Time, SessionEntry, Sessions, StateFile, missing, blank, unreadable, unparsable, parsed,
  load_state,
}
use klaudiush.HookSession.Findings.{identity_key}
use klaudiush.HookSession.Store.{
  session_key, is_live, cleanup_expired, found, findings_of, append_to, appended, new_entry,
}
use klaudiush.HookSession.Laws.{upsert_all-Distinct}

-- No two findings of a session are the same.
abbrev pub IsUnique : Option SessionEntry → Type 0
IsUnique entry = Distinct identity_key (findings_of entry)

abbrev pub AllUnique : Sessions → Type 0
AllUnique sessions = All (λ e. IsUnique e.1) sessions

abbrev pub FileIsUnique : StateFile → Type 0
FileIsUnique (parsed (some sessions)) = AllUnique sessions
FileIsUnique _ = Unit

pub insert-AllUnique :
    (key : Str) (entry : Option SessionEntry) (sessions : Sessions)
    → IsUnique entry
    → AllUnique sessions
    → AllUnique (insert key entry sessions)
unfolding insert
insert-AllUnique key entry [] u all = (u, tt)
insert-AllUnique key entry ((j, e) ∷ sessions) u (v, all) = elim (Bool-cases (str_eq j key)) [
  | inl same ↦ rw same (u, all)
  | inr other ↦ rw other (v, insert-AllUnique key entry sessions u all)
]

pub delete-AllUnique :
    (key : Str) (sessions : Sessions) → AllUnique sessions → AllUnique (delete key sessions)
unfolding delete
delete-AllUnique key [] all = tt
delete-AllUnique key ((j, e) ∷ sessions) (v, all) = elim (Bool-cases (str_eq j key)) [
  | inl same ↦ rw same (delete-AllUnique key sessions all)
  | inr other ↦ rw other (v, delete-AllUnique key sessions all)
]

pub lookup-IsUnique :
    (key : Str) (sessions : Sessions) → AllUnique sessions → IsUnique (found (lookup key sessions))
unfolding lookup
lookup-IsUnique key [] all = tt
lookup-IsUnique key ((j, e) ∷ sessions) (v, all) = elim (Bool-cases (str_eq j key)) [
  | inl same ↦ rw same v
  | inr other ↦ rw other (lookup-IsUnique key sessions all)
]

pub cleanup_expired-AllUnique :
    (retention : ℤ) (now : Time) (sessions : Sessions)
    → AllUnique sessions
    → AllUnique (cleanup_expired retention now sessions)
unfolding cleanup_expired
cleanup_expired-AllUnique retention now [] all = tt
cleanup_expired-AllUnique retention now ((j, e) ∷ sessions) (v, all) =
    elim (Bool-cases (is_live retention now e)) [
      | inl live ↦ rw live (v, cleanup_expired-AllUnique retention now sessions all)
      | inr expired ↦ rw expired (cleanup_expired-AllUnique retention now sessions all)
    ]

pub appended-IsUnique :
    (at_start at_update : Time) (hook : Context) (errs : List (Option ValidationError))
    (existing : Option SessionEntry)
    → IsUnique existing
    → IsUnique (some (appended at_start at_update hook errs existing))
unfolding appended new_entry
appended-IsUnique at_start at_update hook errs none u =
    upsert_all-Distinct hook at_update errs [] tt
appended-IsUnique at_start at_update hook errs (some entry) u =
    upsert_all-Distinct hook at_update errs entry.findings u

pub append_to-AllUnique :
    (at_start at_update : Time) (hook : Context) (errs : List (Option ValidationError))
    (sessions : Sessions)
    → AllUnique sessions
    → AllUnique (append_to at_start at_update hook errs sessions)
unfolding append_to
append_to-AllUnique at_start at_update hook errs sessions all =
    let key = session_key hook.provider hook.session_id in
    let existing = found (lookup key sessions) in
    insert-AllUnique key (some (appended at_start at_update hook errs existing)) sessions
      (appended-IsUnique at_start at_update hook errs existing (lookup-IsUnique key sessions all))
      all

abbrev pub LoadIsUnique : Result Sessions → Type 0
LoadIsUnique (err e) = Unit
LoadIsUnique (ok sessions) = AllUnique sessions

pub load_state-IsUnique : (file : StateFile) → FileIsUnique file → LoadIsUnique (load_state file)
unfolding load_state
load_state-IsUnique missing u = tt
load_state-IsUnique blank u = tt
load_state-IsUnique (unreadable e) u = tt
load_state-IsUnique (unparsable e) u = tt
load_state-IsUnique (parsed none) u = tt
load_state-IsUnique (parsed (some sessions)) u = u
