-- ===== src/HookSession/Reachable.antt =====
-- The files that the store's methods can leave, whatever the clock and the disk do.
use mathlib.Core.Path.{sym, subst}
use klaudiush.Prelude.{
  ◌≡◌, refl, inl, inr, Bool, true, false, Option, none, some, List, [], Bool-cases,
}
use klaudiush.Prelude.Bytes.{Str}
use klaudiush.Prelude.Int.{ℤ}
use klaudiush.Prelude.Maps.{insert, delete}
use klaudiush.Prelude.Result.{Result, ok, err}
use klaudiush.Hook.{Provider, Context}
use klaudiush.Hook.Metadata.{provider_string}
use klaudiush.Dispatcher.Errors.{ValidationError}
use klaudiush.HookSession.{
  Time, Sessions, StateFile, missing, blank, unreadable, unparsable, parsed, load_state, save_state,
}
use klaudiush.HookSession.Store.{
  session_key, has_no_session, cleanup_expired, start, append, append_to, clear, combined_loaded,
  combined_errors, with_state, save_changed, reported, has_expired, new_entry,
}
use klaudiush.HookSession.Uniqueness.{
  AllUnique, FileIsUnique, LoadIsUnique, insert-AllUnique, delete-AllUnique,
  cleanup_expired-AllUnique, append_to-AllUnique, load_state-IsUnique,
}

-- The files that calls of the methods leave, from no file. Each call has its own clock readings and its
-- own errors of the disk.
pub data Reachable (retention : ℤ) : StateFile → Type 0 where
  fresh : Reachable retention missing
  started :
      {file : StateFile} (mkdir write rename : Option Str) (at_cleanup at_start : Time)
      (provider : Provider) (session_id : Str)
      → Reachable retention file
      → Reachable retention
          (start retention mkdir write rename at_cleanup at_start provider session_id file).1
  appended_to :
      {file : StateFile} (mkdir write rename : Option Str) (at_cleanup at_start at_update : Time)
      (hook : Option Context) (errs : List (Option ValidationError))
      → Reachable retention file
      → Reachable retention
          (append retention mkdir write rename at_cleanup at_start at_update hook errs file).1
  cleared :
      {file : StateFile} (mkdir write rename : Option Str) (at_cleanup : Time) (provider : Provider)
      (session_id : Str)
      → Reachable retention file
      → Reachable retention
          (clear retention mkdir write rename at_cleanup provider session_id file).1
  combined :
      {file : StateFile} (mkdir write rename : Option Str) (at_cleanup : Time) (provider : Provider)
      (session_id : Str)
      → Reachable retention file
      → Reachable retention
          (combined_errors retention mkdir write rename at_cleanup provider session_id file).1

module _ (retention : ℤ) (mkdir write rename : Option Str) where
  save_state-FileIsUnique :
      (m w r : Option Str) (sessions : Sessions) (file : StateFile)
      → AllUnique sessions
      → FileIsUnique file
      → FileIsUnique (save_state m w r sessions file).1
  unfolding save_state
  save_state-FileIsUnique (some e) w r sessions file all u = u
  save_state-FileIsUnique none (some e) r sessions file all u = u
  save_state-FileIsUnique none none (some e) sessions file all u = u
  save_state-FileIsUnique none none none sessions file all u = all

  with_state-FileIsUnique :
      (at_cleanup : Time) (change : Sessions → Sessions)
      → ((sessions : Sessions) → AllUnique sessions → AllUnique (change sessions))
      → (file : StateFile) → FileIsUnique file
      → FileIsUnique (with_state retention mkdir write rename at_cleanup change file).1
  unfolding with_state load_state
  with_state-FileIsUnique now change keep missing u =
      save_state-FileIsUnique mkdir write rename _ missing
        (keep _ (cleanup_expired-AllUnique retention now [] tt)) u
  with_state-FileIsUnique now change keep blank u =
      save_state-FileIsUnique mkdir write rename _ blank
        (keep _ (cleanup_expired-AllUnique retention now [] tt)) u
  with_state-FileIsUnique now change keep (unreadable e) u = u
  with_state-FileIsUnique now change keep (unparsable e) u = u
  with_state-FileIsUnique now change keep (parsed none) u =
      save_state-FileIsUnique mkdir write rename _ (parsed none)
        (keep _ (cleanup_expired-AllUnique retention now [] tt)) u
  with_state-FileIsUnique now change keep (parsed (some sessions)) u =
      save_state-FileIsUnique mkdir write rename _ (parsed (some sessions))
        (keep _ (cleanup_expired-AllUnique retention now sessions u)) u

  start-FileIsUnique :
      (at_cleanup at_start : Time) (p : Provider) (s : Str) (file : StateFile)
      → FileIsUnique file
      → FileIsUnique (start retention mkdir write rename at_cleanup at_start p s file).1
  unfolding start new_entry
  start-FileIsUnique at_cleanup at_start p s file u = elim (Bool-cases (has_no_session p s)) [
    | inl no_session ↦ rw no_session u
    | inr named ↦ rw named (
        with_state-FileIsUnique at_cleanup
          (insert (session_key p s) (some (new_entry at_start (provider_string p) s)))
          (λ sessions all.
            insert-AllUnique (session_key p s) (some (new_entry at_start (provider_string p) s))
              sessions tt all)
          file u)
  ]

  append-FileIsUnique :
      (at_cleanup at_start at_update : Time) (hook : Option Context)
      (errs : List (Option ValidationError)) (file : StateFile)
      → FileIsUnique file
      → FileIsUnique
          (append retention mkdir write rename at_cleanup at_start at_update hook errs file).1
  unfolding append append_to
  append-FileIsUnique at_cleanup at_start at_update none errs file u = u
  append-FileIsUnique at_cleanup at_start at_update (some hook) errs file u =
      elim (Bool-cases (has_no_session hook.provider hook.session_id)) [
        | inl no_session ↦ rw no_session u
        | inr named ↦ rw named (
            with_state-FileIsUnique at_cleanup (append_to at_start at_update hook errs)
              (append_to-AllUnique at_start at_update hook errs) file u)
      ]

  clear-FileIsUnique :
      (at_cleanup : Time) (p : Provider) (s : Str) (file : StateFile)
      → FileIsUnique file
      → FileIsUnique (clear retention mkdir write rename at_cleanup p s file).1
  unfolding clear
  clear-FileIsUnique at_cleanup p s file u = elim (Bool-cases (has_no_session p s)) [
    | inl no_session ↦ rw no_session u
    | inr named ↦ rw named (
        with_state-FileIsUnique at_cleanup (delete (session_key p s))
          (delete-AllUnique (session_key p s)) file u)
  ]

  reported-file :
      (errors : List ValidationError) (o : Option Str × StateFile) → (reported errors o).1 ≡ o.1
  reported-file errors (none, file) = refl
  reported-file errors (some e, file) = refl

  save_changed-FileIsUnique :
      (changed : Bool) (sessions : Sessions) (file : StateFile)
      → AllUnique sessions
      → FileIsUnique file
      → FileIsUnique (save_changed retention mkdir write rename changed sessions file).1
  unfolding save_changed
  save_changed-FileIsUnique true sessions file all u =
      save_state-FileIsUnique mkdir write rename sessions file all u
  save_changed-FileIsUnique false sessions file all u = u

  combined_loaded-FileIsUnique :
      (at_cleanup : Time) (p : Provider) (s : Str) (file : StateFile) (r : Result Sessions)
      → LoadIsUnique r
      → FileIsUnique file
      → FileIsUnique (combined_loaded retention mkdir write rename at_cleanup p s file r).1
  unfolding combined_loaded
  combined_loaded-FileIsUnique at_cleanup p s file (err e) all u = u
  combined_loaded-FileIsUnique at_cleanup p s file (ok sessions) all u =
      subst FileIsUnique (sym (reported-file _ _)) (
        save_changed-FileIsUnique (has_expired retention at_cleanup sessions)
          (cleanup_expired retention at_cleanup sessions) file
          (cleanup_expired-AllUnique retention at_cleanup sessions all) u)

  combined_errors-FileIsUnique :
      (at_cleanup : Time) (p : Provider) (s : Str) (file : StateFile)
      → FileIsUnique file
      → FileIsUnique (combined_errors retention mkdir write rename at_cleanup p s file).1
  unfolding combined_errors
  combined_errors-FileIsUnique at_cleanup p s file u = elim (Bool-cases (has_no_session p s)) [
    | inl no_session ↦ rw no_session u
    | inr named ↦ rw named (
        combined_loaded-FileIsUnique at_cleanup p s file (load_state file)
          (load_state-IsUnique file u) u)
  ]

-- Whatever the methods are called with, in whatever order, and whatever the clock and the disk do: no
-- two findings that the state file lists for a session are the same.
pub Reachable-FileIsUnique :
    (retention : ℤ) (file : StateFile) → Reachable retention file → FileIsUnique file
Reachable-FileIsUnique retention missing fresh = tt
Reachable-FileIsUnique retention _ (started {file} m w r tc ts p s before) =
    start-FileIsUnique retention m w r tc ts p s file (Reachable-FileIsUnique retention file before)
Reachable-FileIsUnique retention _ (appended_to {file} m w r tc ts tu hook errs before) =
    append-FileIsUnique retention m w r tc ts tu hook errs file
      (Reachable-FileIsUnique retention file before)
Reachable-FileIsUnique retention _ (cleared {file} m w r tc p s before) =
    clear-FileIsUnique retention m w r tc p s file (Reachable-FileIsUnique retention file before)
Reachable-FileIsUnique retention _ (combined {file} m w r tc p s before) =
    combined_errors-FileIsUnique retention m w r tc p s file
      (Reachable-FileIsUnique retention file before)
