-- ===== src/Patterns/Learning.antt =====
-- What the recorder learns: how often each sequence is seen.
use klaudiush.Prelude.{
  ℕ, suc, ◌+◌, ◌≡◌, refl, ap, ◌∙◌, Bool, true, false, not, ◌&&◌, Option, none, some, List, [], ◌∷◌,
  arith, filter, length, if◌then◌else◌, inl, inr, Bool-cases,
}
use klaudiush.Prelude.Bytes.{Str, str_eq}
use klaudiush.Prelude.Bytes.Laws.{str_eq_iff}
use klaudiush.Prelude.Maps.{get_or, lookup, insert, lookup-insert}
use klaudiush.Prelude.Maps.Laws.{lookup-delete}
use klaudiush.Patterns.{
  Time, Patterns, Sessions, FailurePattern, SessionEntry, FilePatternStore, pattern_key, recorded,
  record_sequence, get_session_codes, set_session_codes, clear_session_codes, codes_of, codes_in,
  without,
}
use klaudiush.Patterns.Recorder.{record_codes, record_pairs, observe}

abbrev pub seen : Option FailurePattern → ℕ
seen none = 0
seen (some p) = p.count

-- How often the sequence at a key was seen.
abbrev pub count_at : Str → Patterns → ℕ
count_at key patterns = seen (lookup key patterns)

-- The pairs of two lists that differ and have that key.
abbrev pub follows : Str → Str → Str → Bool
follows key a b = not (str_eq a b) && str_eq (pattern_key a b) key

abbrev pub pairs : Str → (prev current : List Str) → ℕ
pairs key [] current = 0
pairs key (a ∷ prev) current = length (filter (follows key a) current) + pairs key prev current

seen-recorded :
    (now : Time) (a b : Str) (o : Option FailurePattern)
    → seen (some (recorded now a b o)) ≡ seen o + 1
unfolding recorded
seen-recorded now a b none = refl
seen-recorded now a b (some p) = refl

record_sequence-count_at :
    (now : Time) (a b key : Str) (s : FilePatternStore)
    → count_at key (record_sequence now a b s).global_data.patterns
      ≡ count_at key s.global_data.patterns + (if str_eq (pattern_key a b) key then 1 else 0)
unfolding record_sequence
record_sequence-count_at now a b key s =
    let m = s.global_data.patterns in
    let k = pattern_key a b in
    let p = recorded now a b (lookup k m) in
    elim (Bool-cases (str_eq k key)) [
      | inl same ↦
          let e : k ≡ key = (str_eq_iff k key).0 same in
          rw (lookup-insert k key p m, same)
            (seen-recorded now a b (lookup k m) ∙ ap (λ j. count_at j m + 1) e)
      | inr other ↦ rw (lookup-insert k key p m, other) (omega arith)
    ]

-- One round of the inner loop, by whether the two codes are the same.
recorded_or_not :
    (now : Time) (a b key : Str) (s : FilePatternStore) (xs : List Str) (same : Bool)
    → count_at key (if same then s else record_sequence now a b s).global_data.patterns + length xs
      ≡ count_at key s.global_data.patterns
        + length (if not same && str_eq (pattern_key a b) key then b ∷ xs else xs)
recorded_or_not now a b key s xs true = refl
recorded_or_not now a b key s xs false =
    let step = record_sequence-count_at now a b key s in
    elim (Bool-cases (str_eq (pattern_key a b) key)) [
      | inl hit ↦ rw hit (let h = rw hit at step in omega (arith, h))
      | inr miss ↦ rw miss (let h = rw miss at step in omega (arith, h))
    ]

module _ (clock : ℕ → Time) (key : Str) where
  record_codes-count_at :
      (i : ℕ) (prev : Str) (current : List Str) (s : FilePatternStore)
      → count_at key (record_codes clock i prev current s).1.global_data.patterns
        ≡ count_at key s.global_data.patterns + length (filter (follows key prev) current)
  unfolding record_codes
  record_codes-count_at i prev [] s = omega arith
  record_codes-count_at i prev (code ∷ current) s =
      let same = str_eq prev code in
      record_codes-count_at (if same then i else suc i) prev current
        (if same then s else record_sequence (clock i) prev code s)
      ∙ recorded_or_not (clock i) prev code key s (filter (follows key prev) current) same

  record_pairs-count_at :
      (i : ℕ) (prev current : List Str) (s : FilePatternStore)
      → count_at key (record_pairs clock i prev current s).1.global_data.patterns
        ≡ count_at key s.global_data.patterns + pairs key prev current
  unfolding record_pairs
  record_pairs-count_at i [] current s = omega arith
  record_pairs-count_at i (code ∷ prev) current s =
      let (i', s') = record_codes clock i code current s in
      omega
        (arith, record_codes-count_at i code current s, record_pairs-count_at i' prev current s')

-- The sessions are not touched by what is learnt.
record_codes-sessions :
    (clock : ℕ → Time) (i : ℕ) (prev : Str) (current : List Str) (s : FilePatternStore)
    → (record_codes clock i prev current s).1.global_data.sessions ≡ s.global_data.sessions
unfolding record_codes record_sequence
record_codes-sessions clock i prev [] s = refl
record_codes-sessions clock i prev (code ∷ current) s =
    record_codes-sessions clock (if str_eq prev code then i else suc i) prev current
      (if str_eq prev code then s else record_sequence (clock i) prev code s)
    ∙ unchanged (str_eq prev code)
  where
    unchanged :
        (same : Bool)
        → (if same then s else record_sequence (clock i) prev code s).global_data.sessions
          ≡ s.global_data.sessions
    unchanged true = refl
    unchanged false = refl

record_pairs-sessions :
    (clock : ℕ → Time) (i : ℕ) (prev current : List Str) (s : FilePatternStore)
    → (record_pairs clock i prev current s).1.global_data.sessions ≡ s.global_data.sessions
unfolding record_pairs
record_pairs-sessions clock i [] current s = refl
record_pairs-sessions clock i (code ∷ prev) current s =
    record_pairs-sessions clock (record_codes clock i code current s).0 prev current
      (record_codes clock i code current s).1
    ∙ record_codes-sessions clock i code current s

codes_of-if :
    (b : Bool) (entry : SessionEntry) (o : Option SessionEntry)
    → codes_of (if b then some entry else o) ≡ (if b then entry.codes else codes_of o)
codes_of-if true entry o = refl
codes_of-if false entry o = refl

codes_in-insert :
    (id other : Str) (entry : SessionEntry) (o : Option Sessions)
    → codes_in other (some (insert id entry (get_or o [])))
      ≡ (if str_eq id other then entry.codes else codes_in other o)
unfolding codes_in lookup
codes_in-insert id other entry none =
    ap codes_of (lookup-insert id other entry []) ∙ codes_of-if (str_eq id other) entry none
codes_in-insert id other entry (some m) =
    ap codes_of (lookup-insert id other entry m)
    ∙ codes_of-if (str_eq id other) entry (lookup other m)

codes_in-without :
    (id other : Str) (o : Option Sessions)
    → codes_in other (without id o) ≡ (if str_eq id other then [] else codes_in other o)
unfolding codes_in without
codes_in-without id other none = ground arith
codes_in-without id other (some m) = ap codes_of (lookup-delete id other m) ∙ ground arith

pairs_nil : (key : Str) (prev : List Str) → pairs key prev [] ≡ 0
pairs_nil key [] = refl
pairs_nil key (a ∷ prev) = omega (arith, pairs_nil key prev)

-- What `Observe` learns from a session's failures: every sequence of a code that the session failed
-- with before and another code that it fails with now is seen once more for each pair of them, and
-- no other. Then the session's codes are the new ones, and those of every other session stay.
pub observe_lem :
    (clock : ℕ → Time) (id : Str) (s : FilePatternStore) (codes : List Str)
    → ((key : Str)
        → count_at key (observe clock id codes s).global_data.patterns
          ≡ count_at key s.global_data.patterns + pairs key (get_session_codes id s) codes)
      × ((other : Str)
          → get_session_codes other (observe clock id codes s)
            ≡ (if str_eq id other then codes else get_session_codes other s))
unfolding observe clear_session_codes set_session_codes get_session_codes
observe_lem clock id s [] = (
  λ key. omega (arith, pairs_nil key (get_session_codes id s)),
  λ other. codes_in-without id other s.global_data.sessions,
)
observe_lem clock id s (code ∷ codes) =
    let prev = get_session_codes id s in
    let (i, s') = record_pairs clock 0 prev (code ∷ codes) s in
    (
      λ key. record_pairs-count_at clock key 0 prev (code ∷ codes) s,
      λ other.
          codes_in-insert id other (record { codes = code ∷ codes; last_seen = clock i })
            s'.global_data.sessions
          ∙ ap (λ o. if str_eq id other then code ∷ codes else codes_in other o)
              (record_pairs-sessions clock 0 prev (code ∷ codes) s),
    )
