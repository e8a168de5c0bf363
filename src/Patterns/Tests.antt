-- ===== src/Patterns/Tests.antt =====
-- Failure patterns at concrete stores.
use mathlib.Core.List.Permᴰ
use klaudiush.Prelude.{
  ℕ, ◌+◌, ◌≡◌, refl, true, false, none, some, [], ◌∷◌, arith, length, All, if◌then◌else◌,
}
use klaudiush.Prelude.Bytes.{Str, codes, str_eq}
use klaudiush.Prelude.Sort.{sort}
use klaudiush.Prelude.Int.{pos, ◌≤ℤ◌, ltb_ℤ}
use klaudiush.Prelude.Maps.{lookup, insert, delete, DistinctKeys}
use klaudiush.Prelude.Maps.Eviction.{Stays, evict, delete_all}
use klaudiush.Patterns.{
  Time, FailurePattern, Patterns, PatternData, FilePatternStore, new_pattern_data, trim_patterns,
  get_session_codes,
}
use klaudiush.Patterns.Merge.{merge_patterns, get_follow_ups}
use klaudiush.Patterns.Recorder.{observe}
use klaudiush.Patterns.Advisor.{advise, format_warning}
use klaudiush.Patterns.Config.{new_advisor}
use klaudiush.Patterns.Learning.{count_at, pairs, observe_lem}
use klaudiush.Patterns.Laws.{trim_patterns-Stays, merge_patterns-count_at}
use klaudiush.Patterns.Advice.{IsHint, advise-IsHint}

abbrev pattern : Time → ℕ → FailurePattern
pattern time count = record {
  source_code = codes "GIT013";
  target_code = codes "GIT004";
  count = count;
  last_seen = time;
  first_seen = 1;
  seed = false;
}

abbrev key : Str
key = codes "GIT013->GIT004"

abbrev patterns : Patterns
patterns = (key, pattern 9 4) ∷ (codes "GIT010->GIT013", pattern 5 1) ∷ []

abbrev pattern_data : PatternData
pattern_data = record new_pattern_data { patterns = patterns }

abbrev store : FilePatternStore
store = record {
  project_path = codes "p";
  global_path = codes "g";
  legacy_fallback_path = codes "l";
  use_legacy_fallback = true;
  project_data = new_pattern_data;
  global_data = pattern_data;
}

-- The least recently seen pattern goes.
trim_test : (trim_patterns (pos 1) patterns store).1.global_data.patterns ≡ (key, pattern 9 4) ∷ []
unfolding trim_patterns evict delete_all codes sort delete str_eq
trim_test = refl

distinct : DistinctKeys patterns
unfolding codes str_eq
distinct = (refl, (refl, tt))

advise_test :
    advise (new_advisor none) (λ i. merge_patterns store) (codes "GIT013" ∷ [])
    ≡ codes
        "Pattern hint: after fixing GIT013 (conventional format), GIT004 (title too long) often follows."
      ∷ []
unfolding advise new_advisor merge_patterns codes str_eq get_follow_ups sort lookup insert
    format_warning
advise_test = refl

trim_patterns-Stays_example :
    let (removed, s') = trim_patterns (pos 1) patterns store in
    (length s'.global_data.patterns + removed ≡ 2)
    × (ltb_ℤ (pos 0) (pos 1) ≡ true → pos (length s'.global_data.patterns) ≤ℤ pos 1)
    × ((k : Str) (p : FailurePattern)
        → lookup k patterns ≡ some p
        → Stays (λ p. p.last_seen) k p s'.global_data.patterns)
trim_patterns-Stays_example =
    trim_patterns-Stays (pos 1) patterns store (Permᴰ.refl patterns) distinct

merge_patterns-count_at_example :
    count_at key (merge_patterns store) ≡ count_at key [] + count_at key patterns
merge_patterns-count_at_example = merge_patterns-count_at key store distinct

observe_lem_example :
    ((k : Str)
      → count_at k (observe (λ i. i) (codes "s") (codes "GIT004" ∷ []) store).global_data.patterns
        ≡ count_at k patterns + pairs k (get_session_codes (codes "s") store) (codes "GIT004" ∷ []))
    × ((other : Str)
        → get_session_codes other (observe (λ i. i) (codes "s") (codes "GIT004" ∷ []) store) ≡ (
            if str_eq (codes "s") other
            then codes "GIT004" ∷ []
            else get_session_codes other store))
observe_lem_example = observe_lem (λ i. i) (codes "s") store (codes "GIT004" ∷ [])

advise-IsHint_example :
    (pos (length (advise (new_advisor none) (λ i. merge_patterns store) (codes "GIT013" ∷ [])))
      ≤ℤ pos 3)
    × ((code : Str)
        → pos (length (advise (new_advisor none) (λ i. merge_patterns store) (code ∷ []))) ≤ℤ pos 2)
    × All
        (IsHint
          (new_advisor none)
          (λ i. merge_patterns store)
          store
          (λ i. Permᴰ.refl (merge_patterns store))
          (codes "GIT013" ∷ []))
        (advise (new_advisor none) (λ i. merge_patterns store) (codes "GIT013" ∷ []))
unfolding new_advisor
advise-IsHint_example =
    advise-IsHint (new_advisor none) (λ i. merge_patterns store) store
      (λ i. Permᴰ.refl (merge_patterns store)) (codes "GIT013" ∷ []) (omega arith) (omega arith)
