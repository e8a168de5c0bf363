-- ===== src/HookSession/Isolation.antt =====
-- What each method does to the session that it is called for, and to the others.
use klaudiush.Prelude.{
  ◌+◌, ◌≡◌, ◌≢◌, refl, sym, ap, ◌∙◌, ◌⊎◌, inl, inr, true, false, Option, none, some, List, [],
  if◌then◌else◌, Bool-cases,
}
use klaudiush.Prelude.Bytes.{Str, str_eq, split_at, lacks}
use klaudiush.Prelude.Bytes.Laws.{str_eq_iff, str_eq_refl, split_at-append}
use klaudiush.Prelude.Int.{ℤ}
use klaudiush.Prelude.Maps.{lookup, insert, lookup-insert}
use klaudiush.Prelude.Result.{ok}
use klaudiush.Hook.{Provider, Context}
use klaudiush.Hook.Metadata.{provider_string}
use klaudiush.Dispatcher.Errors.{ValidationError}
use klaudiush.HookSession.{
  Time, Finding, SessionEntry, Sessions, StateFile, parsed, load_state, save_state,
}
use klaudiush.HookSession.Store.{
  session_key, has_no_session, cleanup_expired, found, findings_of, append, append_to, appended,
  with_state, new_entry,
}
use klaudiush.HookSession.Laws.{occurrences, reports, occurrences-upsert_all}

provider_lacks_colon : (p : Provider) → lacks b':' (provider_string p) ≡ true
unfolding provider_string
provider_lacks_colon Provider.unknown = refl
provider_lacks_colon Provider.claude = refl
provider_lacks_colon Provider.codex = refl
provider_lacks_colon Provider.gemini = refl

provider_of : Str → Provider
provider_of s =
    if str_eq s (provider_string Provider.claude)
    then Provider.claude
    else if str_eq s (provider_string Provider.codex)
    then Provider.codex
    else if str_eq s (provider_string Provider.gemini)
    then Provider.gemini
    else Provider.unknown

provider_of_lem : (p : Provider) → provider_of (provider_string p) ≡ p
unfolding provider_of provider_string str_eq
provider_of_lem Provider.unknown = refl
provider_of_lem Provider.claude = refl
provider_of_lem Provider.codex = refl
provider_of_lem Provider.gemini = refl

-- No two sessions share a key.
session_key_injective :
    (p q : Provider) (s t : Str) → session_key p s ≡ session_key q t → (p ≡ q) × (s ≡ t)
unfolding session_key
session_key_injective p q s t e =
    let parts : ◌≡◌ {A = Str × Option Str} (provider_string p, some s) (provider_string q, some t) =
      sym (split_at-append b':' (provider_string p) s (provider_lacks_colon p))
      ∙ (ap (split_at b':') e
          ∙ split_at-append b':' (provider_string q) t (provider_lacks_colon q)) in
    (
      sym (provider_of_lem p) ∙ (ap provider_of (ap (λ x. x.0) parts) ∙ provider_of_lem q),
      cc (ap (λ x. x.1) parts),
    )

abbrev pub Other : Provider → Str → Provider → Str → Type 0
Other p s q t = (p ≢ q) ⊎ (s ≢ t)

distinct_key :
    (p q : Provider) (s t : Str)
    → Other p s q t
    → str_eq (session_key p s) (session_key q t) ≡ false
distinct_key p q s t o = elim (Bool-cases (str_eq (session_key p s) (session_key q t))) [
  | inr different ↦ different
  | inl same ↦ absurd (clash o (session_key_injective p q s t ((str_eq_iff _ _).0 same)))
]
  where
    clash : Other p s q t → (p ≡ q) × (s ≡ t) → ⊥
    clash (inl n) (e, f) = n e
    clash (inr n) (e, f) = n f

-- The findings of a session.
abbrev pub findings_at : Provider → Str → Sessions → List Finding
findings_at p s sessions = findings_of (found (lookup (session_key p s) sessions))

appended-occurrences :
    (at_start at_update : Time) (hook : Context) (errs : List (Option ValidationError)) (id : Str)
    (o : Option SessionEntry)
    → occurrences id (appended at_start at_update hook errs o).findings
      ≡ occurrences id (findings_of o) + reports hook at_update id errs
unfolding appended new_entry
appended-occurrences at_start at_update hook errs id none =
    occurrences-upsert_all hook at_update id errs []
appended-occurrences at_start at_update hook errs id (some entry) =
    occurrences-upsert_all hook at_update id errs entry.findings

module _ (retention : ℤ) (at_cleanup : Time) (file : StateFile) (sessions : Sessions)
    (loaded : load_state file ≡ ok sessions) where
  -- The sessions that have not expired.
  abbrev pub kept : Sessions
  kept = cleanup_expired retention at_cleanup sessions

  with_state_saved :
      (change : Sessions → Sessions)
      → with_state retention none none none at_cleanup change file
        ≡ (none, parsed (some (change kept)))
  unfolding with_state save_state
  with_state_saved change = simp (with_state, loaded) refl

  pub append-eq :
      (at_start at_update : Time) (hook : Context) (errs : List (Option ValidationError))
      → has_no_session hook.provider hook.session_id ≡ false
      → append retention none none none at_cleanup at_start at_update (some hook) errs file
        ≡ (none, parsed (some (append_to at_start at_update hook errs kept)))
  unfolding append
  append-eq at_start at_update hook errs present =
      simp (append, present) (with_state_saved (append_to at_start at_update hook errs))

  -- `Append` with no error of the disk: each finding of the session was counted as often as before and
  -- once more for each error that is it; every other session is as it was, unless it has expired.
  pub append-occurrences :
      (at_start at_update : Time) (hook : Context) (errs : List (Option ValidationError))
      → has_no_session hook.provider hook.session_id ≡ false
      → (sessions' : Sessions) × (append retention none none none at_cleanup at_start at_update
            (some hook)
            errs
            file
          ≡ (none, parsed (some sessions')))
        × ((id : Str)
            → occurrences id (findings_at hook.provider hook.session_id sessions')
              ≡ occurrences id (findings_at hook.provider hook.session_id kept)
                + reports hook at_update id errs)
        × ((q : Provider) (t : Str)
            → Other hook.provider hook.session_id q t
            → lookup (session_key q t) sessions' ≡ lookup (session_key q t) kept)
  unfolding append append_to
  append-occurrences at_start at_update hook errs present =
      let key = session_key hook.provider hook.session_id in
      let entry = appended at_start at_update hook errs (found (lookup key kept)) in
      let own : lookup key (insert key (some entry) kept) ≡ some (some entry) =
        lookup-insert key key (some entry) kept ∙ rw (str_eq_refl key) refl in
      (
        insert key (some entry) kept,
        append-eq at_start at_update hook errs present,
        λ id.
            ap (λ o. occurrences id (findings_of (found o))) own
            ∙ appended-occurrences at_start at_update hook errs id (found (lookup key kept)),
        λ q t o.
            lookup-insert key (session_key q t) (some entry) kept
            ∙ rw (distinct_key hook.provider q hook.session_id t o) refl,
      )
