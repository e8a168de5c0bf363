-- ===== src/HookSession/Tests.antt =====
-- A session store at concrete calls.
use klaudiush.Prelude.{◌+◌, ◌≡◌, refl, true, false, Option, none, some, List, [], ◌∷◌, map}
use klaudiush.Prelude.Bytes.{Str, codes, str_eq, join}
use klaudiush.Prelude.Bytes.Text.{itoa}
use klaudiush.Prelude.Int.{ℤ, pos, ◌-ℤ◌, ltb_ℤ}
use klaudiush.Prelude.Maps.{lookup, insert}
use klaudiush.Prelude.Result.{ok}
use klaudiush.Prelude.Sort.{sort}
use klaudiush.Hook.{Context, Provider, get_command, get_file_path}
use klaudiush.Hook.Names.{event_name, tool_name_string}
use klaudiush.Hook.Metadata.{provider_string, canonical_string, display_event_name, family_string}
use klaudiush.Exceptions.Tests.{context}
use klaudiush.Dispatcher.Errors.{ValidationError}
use klaudiush.HookSession.{
  SessionEntry, Sessions, StateFile, missing, parsed, load_state, save_state,
}
use klaudiush.HookSession.Findings.{identity_key, upsert_all}
use klaudiush.HookSession.Store.{
  session_key, has_no_session, cleanup_expired, combined_error, combined_errors, combined_loaded,
  start, append, append_to, with_state, has_expired,
}
use klaudiush.HookSession.Laws.{occurrences, reports}
use klaudiush.HookSession.Isolation.{Other, findings_at, append-occurrences}
use klaudiush.HookSession.Reachable.{fresh, started, appended_to, Reachable-FileIsUnique}
use klaudiush.HookSession.Uniqueness.{FileIsUnique}
use klaudiush.HookSession.Reports.{combined_errors-append}

abbrev hook : Context
hook = record context { provider = Provider.claude; session_id = codes "s1" }

abbrev verr : ValidationError
verr = record {
  validator = codes "git.push";
  message = codes "no";
  details = [];
  should_block = true;
  reference = codes "GIT019";
  fix_hint = [];
  bypassed = false;
  bypass_reason = [];
}

abbrev week : ℤ
week = pos 604800000000000

-- One session is started, and an error is appended twice.
abbrev started_file : StateFile
started_file = (start week none none none 10 11 Provider.claude (codes "s1") missing).1

abbrev appended_file : StateFile
appended_file =
    (append week none none none 20 21 22 (some hook) (some verr ∷ none ∷ some verr ∷ [])
      started_file).1

-- The two are one finding that occurred twice.
combined_test :
    (combined_errors week none none none 30 Provider.claude (codes "s1") appended_file).0
    ≡ ok (record verr { details = (codes "occurrences", codes "2") ∷ [] } ∷ [])
unfolding combined_errors append start with_state codes combined_loaded load_state save_state
    cleanup_expired combined_error append_to session_key upsert_all identity_key str_eq join sort
    provider_string itoa lookup insert has_expired canonical_string event_name display_event_name
    tool_name_string family_string get_command get_file_path
combined_test = refl

abbrev empty_entry : SessionEntry
empty_entry = record {
  provider = codes "claude";
  session_id = codes "s1";
  started_at = 11;
  updated_at = 11;
  findings = [];
}

abbrev sessions : Sessions
sessions = (codes "claude:s1", some empty_entry) ∷ []

loaded : load_state (parsed (some sessions)) ≡ ok sessions
unfolding load_state
loaded = refl

abbrev errs : List (Option ValidationError)
errs = some verr ∷ none ∷ some verr ∷ []

present : has_no_session Provider.claude (codes "s1") ≡ false
unfolding codes
present = refl

fresh_enough : ltb_ℤ week (pos 30 -ℤ pos 22) ≡ false
unfolding ◌-ℤ◌
fresh_enough = refl

append-occurrences_example :
    (sessions' : Sessions) × (append week none none none 20 21 22
        (some hook)
        errs
        (parsed (some sessions))
      ≡ (none, parsed (some sessions')))
    × ((id : Str)
        → occurrences id (findings_at Provider.claude (codes "s1") sessions')
          ≡ occurrences id
              (findings_at Provider.claude (codes "s1") (cleanup_expired week 20 sessions))
            + reports hook 22 id errs)
    × ((q : Provider) (t : Str)
        → Other Provider.claude (codes "s1") q t
        → lookup (session_key q t) sessions'
          ≡ lookup (session_key q t) (cleanup_expired week 20 sessions))
append-occurrences_example =
    append-occurrences week 20 (parsed (some sessions)) sessions loaded 21 22 hook errs present

combined_errors-append_example :
    (combined_errors week none none none 30 Provider.claude
      (codes "s1")
      (append week none none none 20 21 22 (some hook) errs (parsed (some sessions))).1).0
    ≡ ok (
        map combined_error (
          upsert_all hook 22 errs
            (findings_at Provider.claude (codes "s1") (cleanup_expired week 20 sessions))))
combined_errors-append_example =
    combined_errors-append week 20 21 22 30 (parsed (some sessions)) sessions loaded (refl, tt) hook
      errs present refl fresh_enough

Reachable-FileIsUnique_example : FileIsUnique appended_file
Reachable-FileIsUnique_example = Reachable-FileIsUnique week appended_file (
    appended_to none none none 20 21 22 (some hook) errs
      (started none none none 10 11 Provider.claude (codes "s1") fresh))
