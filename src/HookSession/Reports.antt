-- ===== src/HookSession/Reports.antt =====
-- What was appended is reported, until it expires.
use klaudiush.Prelude.{Bool, ◌==◌, map, ◌≡◌, refl, ap, ◌∙◌, true, false, Option, none, some, List}
use klaudiush.Prelude.Bytes.{Str}
use klaudiush.Prelude.Bytes.Laws.{str_eq_refl}
use klaudiush.Prelude.Int.{ℤ, pos, ◌-ℤ◌, ltb_ℤ}
use klaudiush.Prelude.Maps.{DistinctKeys, lookup, insert, lookup-insert}
use klaudiush.Prelude.Maps.Laws.{tested, lookup-filter, filter-DistinctKeys, insert-DistinctKeys}
use klaudiush.Prelude.Result.{ok}
use klaudiush.Hook.{Provider, Context}
use klaudiush.Dispatcher.Errors.{ValidationError}
use klaudiush.HookSession.{Time, SessionEntry, Sessions, StateFile, parsed, load_state, save_state}
use klaudiush.HookSession.Findings.{upsert_all}
use klaudiush.HookSession.Store.{
  is_live, updated, combined_error, combined_errors, combined_loaded, reported, save_changed,
  has_expired, session_key, has_no_session, cleanup_expired, found, findings_of, append, append_to,
  appended, new_entry,
}
use klaudiush.HookSession.Isolation.{findings_at, append-eq}

appended-is_live :
    (retention : ℤ) (later at_start at_update : Time) (hook : Context)
    (errs : List (Option ValidationError)) (o : Option SessionEntry)
    → (at_update == 0) ≡ false
    → ltb_ℤ retention (pos later -ℤ pos at_update) ≡ false
    → is_live retention later (some (appended at_start at_update hook errs o)) ≡ true
unfolding is_live appended new_entry updated
appended-is_live retention later at_start at_update hook errs o set fresh =
    rw (set, set, fresh) refl

appended-findings :
    (at_start at_update : Time) (hook : Context) (errs : List (Option ValidationError))
    (o : Option SessionEntry)
    → (appended at_start at_update hook errs o).findings
      ≡ upsert_all hook at_update errs (findings_of o)
unfolding appended new_entry
appended-findings at_start at_update hook errs none = refl
appended-findings at_start at_update hook errs (some entry) = refl

cleanup_expired-DistinctKeys :
    (retention : ℤ) (now : Time) (sessions : Sessions)
    → DistinctKeys sessions
    → DistinctKeys (cleanup_expired retention now sessions)
unfolding cleanup_expired
cleanup_expired-DistinctKeys retention now sessions d =
    filter-DistinctKeys (λ e. is_live retention now e.1) sessions d

-- An entry that is put in and has not expired is found after the next cleanup.
cleanup_expired-own :
    (retention : ℤ) (later : Time) (key : Str) (entry : SessionEntry) (sessions : Sessions)
    → DistinctKeys sessions
    → is_live retention later (some entry) ≡ true
    → lookup key (cleanup_expired retention later (insert key (some entry) sessions))
      ≡ some (some entry)
unfolding cleanup_expired
cleanup_expired-own retention later key entry sessions d live =
    let p = λ (e : Str × Option SessionEntry). is_live retention later e.1 in
    let own : lookup key (insert key (some entry) sessions) ≡ some (some entry) =
      lookup-insert key key (some entry) sessions ∙ rw (str_eq_refl key) refl in
    lookup-filter p key (insert key (some entry) sessions)
      (insert-DistinctKeys key (some entry) sessions d)
    ∙ (ap (tested p key) own ∙ rw live refl)

reported_saved :
    (retention : ℤ) (errors : List ValidationError) (changed : Bool) (sessions : Sessions)
    (file : StateFile)
    → (reported errors (save_changed retention none none none changed sessions file)).0 ≡ ok errors
unfolding save_changed save_state
reported_saved retention errors true sessions file = refl
reported_saved retention errors false sessions file = refl

combined_errors-own :
    (retention : ℤ) (later : Time) (p : Provider) (s : Str) (sessions : Sessions)
    (o : Option SessionEntry)
    → has_no_session p s ≡ false
    → lookup (session_key p s) (cleanup_expired retention later sessions) ≡ some o
    → (combined_errors retention none none none later p s (parsed (some sessions))).0
      ≡ ok (map combined_error (findings_of o))
unfolding combined_errors combined_loaded load_state
combined_errors-own retention later p s sessions o present own = simp present (
    reported_saved retention _ (has_expired retention later sessions)
      (cleanup_expired retention later sessions) (parsed (some sessions))
    ∙ ap (λ x. ok (map combined_error (findings_of (found x)))) own)

-- What was appended is reported: after an `Append` with no error of the disk, `CombinedErrors` within the
-- retention gives back the findings of the session, with those of the errors counted in. The entries of
-- the file that was read have distinct keys.
module _ (retention : ℤ) (at_cleanup at_start at_update later : Time) (file : StateFile)
    (sessions : Sessions) (loaded : load_state file ≡ ok sessions)
    (distinct : DistinctKeys sessions) (hook : Context) (errs : List (Option ValidationError))
    (present : has_no_session hook.provider hook.session_id ≡ false)
    (set : (at_update == 0) ≡ false)
    (fresh : ltb_ℤ retention (pos later -ℤ pos at_update) ≡ false) where
  pub combined_errors-append :
      (combined_errors retention none none none later hook.provider hook.session_id
        (append retention none none none at_cleanup at_start at_update (some hook) errs file).1).0
      ≡ ok (
          map combined_error (
            upsert_all hook at_update errs (
              findings_at hook.provider hook.session_id
                (cleanup_expired retention at_cleanup sessions))))
  unfolding append_to
  combined_errors-append =
      let key = session_key hook.provider hook.session_id in
      let kept = cleanup_expired retention at_cleanup sessions in
      let entry = appended at_start at_update hook errs (found (lookup key kept)) in
      let after = insert key (some entry) kept in
      let live =
        appended-is_live retention later at_start at_update hook errs (found (lookup key kept)) set
          fresh in
      let own : lookup key (cleanup_expired retention later after) ≡ some (some entry) =
        cleanup_expired-own retention later key entry kept
          (cleanup_expired-DistinctKeys retention at_cleanup sessions distinct) live in
      ap
        (λ (o : Option Str × StateFile).
          (combined_errors retention none none none later hook.provider hook.session_id o.1).0)
        (append-eq retention at_cleanup file sessions loaded at_start at_update hook errs present)
      ∙ (combined_errors-own retention later hook.provider hook.session_id after (some entry)
            present own
          ∙ ap (λ fs. ok (map combined_error fs))
              (appended-findings at_start at_update hook errs (found (lookup key kept))))
