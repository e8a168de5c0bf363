-- ===== src/HookSession/Store.antt =====
-- internal/hooksession/store.go: the methods of the store.
-- The clock is read when expired sessions are dropped (`at_cleanup`), when an entry is made
-- (`at_start`) and when it is updated (`at_update`).
use klaudiush.Prelude.{
  Bool, true, false, not, ◌||◌, Option, none, some, List, [], ◌∷◌, ◌++◌, ltb, ◌==◌, filter, map,
  length, if◌then◌else◌,
}
use klaudiush.Prelude.Bytes.{Str, codes, is_empty}
use klaudiush.Prelude.Bytes.Text.{itoa}
use klaudiush.Prelude.Int.{ℤ, pos, ◌-ℤ◌, ltb_ℤ}
use klaudiush.Prelude.Maps.{get_or, lookup, insert, delete}
use klaudiush.Prelude.Result.{Result, ok, err}
use klaudiush.Hook.{Provider, Context}
use klaudiush.Hook.Names.{provider_name}
use klaudiush.Hook.Metadata.{provider_string}
use klaudiush.Dispatcher.Errors.{ValidationError}
use klaudiush.HookSession.{Time, Finding, SessionEntry, Sessions, StateFile, load_state, save_state}
use klaudiush.HookSession.Findings.{upsert_all}

unfoldable pub session_key : Provider → Str → Str
session_key provider session_id = provider_string provider ++ b':' ∷ session_id

-- `provider == hook.ProviderUnknown || sessionID == ""`
abbrev pub has_no_session : Provider → Str → Bool
has_no_session Provider.unknown session_id = true
has_no_session provider session_id = is_empty session_id

-- `updatedAt`, or `startedAt` where it is zero
unfoldable pub updated : SessionEntry → Time
updated entry = if entry.updated_at == 0 then entry.started_at else entry.updated_at

-- The entries that the loop of `cleanupExpired` does not delete.
unfoldable pub is_live : (retention : ℤ) (now : Time) → Option SessionEntry → Bool
unfolding updated ◌-ℤ◌
is_live retention now none = false
is_live retention now (some entry) =
    let t = updated entry in t == 0 || not (ltb_ℤ retention (pos now -ℤ pos t))

unfoldable pub cleanup_expired : (retention : ℤ) (now : Time) → Sessions → Sessions
unfolding is_live
cleanup_expired retention now sessions = filter (λ e. is_live retention now e.1) sessions

-- What `cleanupExpired` returns.
unfoldable pub has_expired : (retention : ℤ) (now : Time) → Sessions → Bool
unfolding cleanup_expired
has_expired retention now sessions =
    ltb (length (cleanup_expired retention now sessions)) (length sessions)

-- An entry is nil where it is null or missing.
abbrev pub found : Option (Option SessionEntry) → Option SessionEntry
found none = none
found (some entry) = entry

unfoldable pub new_entry : Time → (provider session_id : Str) → SessionEntry
new_entry now provider session_id = record {
  provider = provider;
  session_id = session_id;
  started_at = now;
  updated_at = now;
  findings = [];
}

unfoldable pub combined_error : Finding → ValidationError
combined_error f = record {
  validator = f.validator;
  message = f.message;
  details =
      if ltb 1 f.count
      then insert (codes "occurrences") (itoa (pos f.count)) f.details
      else f.details;
  should_block = f.should_block;
  reference = f.reference;
  fix_hint = f.fix_hint;
  bypassed = f.bypassed;
  bypass_reason = f.bypass_reason;
}

-- The entry after `Append`.
unfoldable pub appended :
    (at_start at_update : Time)
    → Context
    → List (Option ValidationError)
    → Option SessionEntry
    → SessionEntry
unfolding new_entry upsert_all
appended at_start at_update hook errs existing =
    let entry = get_or existing (new_entry at_start (provider_name hook) hook.session_id) in
    record entry {
      findings = upsert_all hook at_update errs entry.findings;
      updated_at = at_update;
    }

unfoldable pub append_to :
    (at_start at_update : Time) → Context → List (Option ValidationError) → Sessions → Sessions
unfolding appended session_key
append_to at_start at_update hook errs sessions =
    let key = session_key hook.provider hook.session_id in
    insert key (some (appended at_start at_update hook errs (found (lookup key sessions)))) sessions

abbrev pub findings_of : Option SessionEntry → List Finding
findings_of none = []
findings_of (some entry) = entry.findings

-- The findings, or the error of the save.
abbrev pub reported :
    List ValidationError → Option Str × StateFile → Result (List ValidationError) × StateFile
reported errors (none, file) = (ok errors, file)
reported errors (some e, file) = (err e, file)

-- The store's retention, and the errors of making the directory, writing and renaming.
module _ (retention : ℤ) (mkdir write rename : Option Str) where
  -- Reading the state, dropping what has expired, and saving what `change` makes of the rest.
  unfoldable pub with_state :
      (at_cleanup : Time) (change : Sessions → Sessions) → StateFile → Option Str × StateFile
  with_state at_cleanup change file = elim (load_state file) [
    | err e ↦ (some e, file)
    | ok sessions ↦
        save_state mkdir write rename (change (cleanup_expired retention at_cleanup sessions)) file
  ]

  unfoldable pub start :
      (at_cleanup at_start : Time) → Provider → Str → StateFile → Option Str × StateFile
  unfolding with_state session_key new_entry
  start at_cleanup at_start provider session_id file =
      if has_no_session provider session_id
      then (none, file)
      else with_state at_cleanup
          (insert (session_key provider session_id)
            (some (new_entry at_start (provider_string provider) session_id)))
          file

  unfoldable pub append :
      (at_cleanup at_start at_update : Time)
      → Option Context
      → List (Option ValidationError)
      → StateFile
      → Option Str × StateFile
  unfolding with_state append_to
  append at_cleanup at_start at_update none errs file = (none, file)
  append at_cleanup at_start at_update (some hook) errs file =
      if has_no_session hook.provider hook.session_id
      then (none, file)
      else with_state at_cleanup (append_to at_start at_update hook errs) file

  unfoldable pub clear : (at_cleanup : Time) → Provider → Str → StateFile → Option Str × StateFile
  unfolding with_state session_key
  clear at_cleanup provider session_id file =
      if has_no_session provider session_id
      then (none, file)
      else with_state at_cleanup (delete (session_key provider session_id)) file

  -- `if changed { if err := s.saveState(st); err != nil { return nil, err } }`
  unfoldable pub save_changed : Bool → Sessions → StateFile → Option Str × StateFile
  save_changed changed sessions file =
      if changed then save_state mkdir write rename sessions file else (none, file)

  -- `CombinedErrors` behind the reading of the state.
  unfoldable pub combined_loaded :
      (at_cleanup : Time)
      → Provider
      → Str
      → StateFile
      → Result Sessions
      → Result (List ValidationError) × StateFile
  unfolding save_changed session_key combined_error
  combined_loaded at_cleanup provider session_id file (err e) = (err e, file)
  combined_loaded at_cleanup provider session_id file (ok sessions) =
      let kept = cleanup_expired retention at_cleanup sessions in
      reported
        (map combined_error (findings_of (found (lookup (session_key provider session_id) kept))))
        (save_changed (has_expired retention at_cleanup sessions) kept file)

  unfoldable pub combined_errors :
      (at_cleanup : Time) → Provider → Str → StateFile → Result (List ValidationError) × StateFile
  unfolding combined_loaded
  combined_errors at_cleanup provider session_id file =
      if has_no_session provider session_id
      then (ok [], file)
      else combined_loaded at_cleanup provider session_id file (load_state file)
