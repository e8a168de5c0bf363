-- ===== src/Patterns/Laws.antt =====
-- The limits on the stored patterns, and what merging and restarting do to the counts.
use mathlib.Core.List.{Permᴰ}
use klaudiush.Prelude.{ℕ, ◌+◌, ◌≤◌, ◌≡◌, refl, ap, ◌∙◌, true, Option, none, some, arith, length}
use klaudiush.Prelude.Bytes.{Str}
use klaudiush.Prelude.Int.{ℤ, pos, negsuc, ◌≤ℤ◌, ltb_ℤ}
use klaudiush.Prelude.Maps.{lookup, DistinctKeys}
use klaudiush.Prelude.Maps.Eviction.{length-evict, Stays, evict-Stays}
use klaudiush.Patterns.{
  Patterns, FailurePattern, PatternData, FilePatternStore, to_remove, trim_patterns,
}
use klaudiush.Patterns.Merge.{
  lookup-merge_with, joined, merge_global, merge_patterns, merge_failure_pattern,
  merge_pattern_data,
}
use klaudiush.Patterns.Learning.{seen, count_at}

to_remove-le : (max_count : ℤ) (n : ℕ) → to_remove max_count n ≤ n
unfolding to_remove
to_remove-le max_count n = ground arith

to_remove_enough :
    (max_count : ℤ) (n k : ℕ)
    → ltb_ℤ (pos 0) max_count ≡ true
    → k + to_remove max_count n ≡ n
    → pos k ≤ℤ max_count
unfolding to_remove
to_remove_enough (pos m) n k h e = ground arith
to_remove_enough (negsuc m) n k h e = ground arith

-- `TrimPatterns` returns how many patterns it removed. If the limit is positive, no more than that many
-- are left. A pattern stays as it is, or it is gone and each pattern that is left was seen at the same
-- time or later. All whatever the order in which the map is visited, and for a map of the patterns.
pub trim_patterns-Stays :
    (max_count : ℤ) (order : Patterns) (s : FilePatternStore)
    → Permᴰ order s.global_data.patterns
    → DistinctKeys s.global_data.patterns
    → let (removed, s') = trim_patterns max_count order s in
      (length s'.global_data.patterns + removed ≡ length s.global_data.patterns)
      × (ltb_ℤ (pos 0) max_count ≡ true → pos (length s'.global_data.patterns) ≤ℤ max_count)
      × ((key : Str) (p : FailurePattern)
          → lookup key s.global_data.patterns ≡ some p
          → Stays (λ p. p.last_seen) key p s'.global_data.patterns)
unfolding trim_patterns
trim_patterns-Stays max_count order s any_order distinct =
    let m = s.global_data.patterns in
    let n = to_remove max_count (length m) in
    let counted =
      length-evict (λ p. p.last_seen) n order m any_order distinct
        (to_remove-le max_count (length m)) in
    (
      counted,
      λ positive. to_remove_enough max_count (length m) _ positive counted,
      evict-Stays (λ p. p.last_seen) n order m any_order distinct,
    )

seen-joined :
    (combine : Option FailurePattern → FailurePattern → FailurePattern)
    → ((o : Option FailurePattern) (p : FailurePattern) → (combine o p).count ≡ seen o + p.count)
    → (o q : Option FailurePattern) → seen (joined combine o q) ≡ seen o + seen q
seen-joined combine add o none = omega arith
seen-joined combine add o (some p) = add o p

merge_global_count :
    (o : Option FailurePattern) (p : FailurePattern) → (merge_global o p).count ≡ seen o + p.count
unfolding merge_global
merge_global_count none p = omega arith
merge_global_count (some q) p = refl

merge_failure_pattern_count :
    (o : Option FailurePattern) (p : FailurePattern)
    → (merge_failure_pattern o p).count ≡ seen o + p.count
unfolding merge_failure_pattern
merge_failure_pattern_count none p = omega arith
merge_failure_pattern_count (some q) p = refl

-- A sequence was seen as often as the project's and the user's patterns say together.
pub merge_patterns-count_at :
    (key : Str) (s : FilePatternStore)
    → DistinctKeys s.global_data.patterns
    → count_at key (merge_patterns s)
      ≡ count_at key s.project_data.patterns + count_at key s.global_data.patterns
unfolding merge_patterns
merge_patterns-count_at key s d =
    ap seen (lookup-merge_with merge_global key s.global_data.patterns s.project_data.patterns d)
    ∙ seen-joined merge_global merge_global_count (lookup key s.project_data.patterns)
        (lookup key s.global_data.patterns)

pub merge_pattern_data-count_at :
    (key : Str) (dest src : PatternData)
    → DistinctKeys src.patterns
    → count_at key (merge_pattern_data dest src).patterns
      ≡ count_at key dest.patterns + count_at key src.patterns
unfolding merge_pattern_data
merge_pattern_data-count_at key dest src d =
    ap seen (lookup-merge_with merge_failure_pattern key src.patterns dest.patterns d)
    ∙ seen-joined merge_failure_pattern merge_failure_pattern_count (lookup key dest.patterns)
        (lookup key src.patterns)
