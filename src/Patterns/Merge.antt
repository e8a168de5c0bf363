-- ===== src/Patterns/Merge.antt =====
-- internal/patterns/store.go: the merges of the project's, the user's and the legacy patterns, and the
-- queries that read the merged ones.
use klaudiush.Prelude.{
  ◌+◌, ◌≡◌, refl, ap, ◌∙◌, false, ◌&&◌, ◌||◌, Option, none, some, List, [], ◌∷◌, ltb, ◌==◌, filter,
  map, if◌then◌else◌, inl, inr, Bool-cases,
}
use mathlib.Core.Path.{subst}
use klaudiush.Prelude.Bytes.{Str, str_eq}
use klaudiush.Prelude.Bytes.Laws.{str_eq_iff}
use klaudiush.Prelude.Int.{ℤ, pos, leb_ℤ}
use klaudiush.Prelude.Maps.{lookup, insert, lookup-insert, has_key, DistinctKeys}
use klaudiush.Prelude.Maps.Laws.{lookup_absent}
use klaudiush.Patterns.{
  FailurePattern, SessionEntry, Patterns, Sessions, PatternData, FilePatternStore,
}

module _ {ℓ} {V : Type ℓ} (combine : Option V → V → V) where
  -- `for key, v := range src { dest[key] = … }`. The order of the range makes no difference, since each
  -- round reads and writes its own key.
  unfoldable pub merge_with : (src dest : List (Str × V)) → List (Str × V)
  merge_with [] dest = dest
  merge_with ((k, v) ∷ src) dest = merge_with src (insert k (combine (lookup k dest) v) dest)

  abbrev pub joined : Option V → Option V → Option V
  joined existing none = existing
  joined existing (some v) = some (combine existing v)

  pub lookup-merge_with :
      (k : Str) (src dest : List (Str × V))
      → DistinctKeys src
      → lookup k (merge_with src dest) ≡ joined (lookup k dest) (lookup k src)
  unfolding merge_with lookup
  lookup-merge_with k [] dest d = refl
  lookup-merge_with k ((j, v) ∷ src) dest (new, d) = elim (Bool-cases (str_eq j k)) [
    | inl same ↦
        let e : j ≡ k = (str_eq_iff j k).0 same in
        let gone : lookup k src ≡ none =
          lookup_absent k src (subst (λ i. has_key i src ≡ false) e new) in
        let next = insert j (combine (lookup j dest) v) dest in
        let here : lookup k next ≡ some (combine (lookup j dest) v) =
          lookup-insert j k (combine (lookup j dest) v) dest ∙ rw same refl in
        rw same (
          lookup-merge_with k src next d
          ∙ (rw (gone, here) (ap (λ i. some (combine (lookup i dest) v)) e)))
    | inr other ↦
        let next = insert j (combine (lookup j dest) v) dest in
        let there : lookup k next ≡ lookup k dest =
          lookup-insert j k (combine (lookup j dest) v) dest ∙ rw other refl in
        rw other (lookup-merge_with k src next d ∙ ap (λ o. joined o (lookup k src)) there)
  ]

-- One round of the second loop of `mergePatterns`.
unfoldable pub merge_global : Option FailurePattern → FailurePattern → FailurePattern
merge_global none p = p
merge_global (some existing) p = record existing {
  count = existing.count + p.count;
  last_seen = if ltb existing.last_seen p.last_seen then p.last_seen else existing.last_seen;
  first_seen = if ltb p.first_seen existing.first_seen then p.first_seen else existing.first_seen;
}

-- The first loop copies the project's patterns.
unfoldable pub merge_patterns : FilePatternStore → Patterns
unfolding merge_with merge_global
merge_patterns s = merge_with merge_global s.global_data.patterns s.project_data.patterns

-- `order` is the merged map's entries in the order in which the range visits them.
unfoldable pub get_follow_ups :
    (order : Patterns) (source_code : Str) (min_count : ℤ) → List FailurePattern
get_follow_ups order source_code min_count =
    filter (λ p. str_eq p.source_code source_code && leb_ℤ min_count (pos p.count))
      (map (λ e. e.1) order)

unfoldable pub get_all_patterns : (order : Patterns) → List FailurePattern
get_all_patterns order = map (λ e. e.1) order

-- One round of `mergeFailurePatterns`.
unfoldable pub merge_failure_pattern : Option FailurePattern → FailurePattern → FailurePattern
merge_failure_pattern none p = p
merge_failure_pattern (some existing) p = record existing {
  count = existing.count + p.count;
  first_seen =
      if ltb p.first_seen existing.first_seen || existing.first_seen == 0
      then p.first_seen
      else existing.first_seen;
  last_seen = if ltb existing.last_seen p.last_seen then p.last_seen else existing.last_seen;
  seed = existing.seed || p.seed;
}

-- One round of `mergeSessions`.
unfoldable pub merge_session : Option SessionEntry → SessionEntry → SessionEntry
merge_session none session = session
merge_session (some existing) session =
    if ltb existing.last_seen session.last_seen then session else existing

-- `ensurePatternDataMaps` and `mergeSessions`
unfoldable pub merge_sessions : (dest src : Option Sessions) → Option Sessions
unfolding merge_with merge_session
merge_sessions dest none = dest
merge_sessions none (some []) = none
merge_sessions none (some (e ∷ src)) = some (merge_with merge_session (e ∷ src) [])
merge_sessions (some dest) (some src) = some (merge_with merge_session src dest)

unfoldable pub merge_pattern_data : (dest src : PatternData) → PatternData
unfolding merge_with merge_failure_pattern merge_sessions
merge_pattern_data dest src = record {
  patterns = merge_with merge_failure_pattern src.patterns dest.patterns;
  sessions = merge_sessions dest.sessions src.sessions;
  last_updated =
      if ltb dest.last_updated src.last_updated then src.last_updated else dest.last_updated;
  version = if ltb dest.version src.version then src.version else dest.version;
}
