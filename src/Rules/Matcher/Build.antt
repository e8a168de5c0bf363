-- ===== src/Rules/Matcher/Build.antt =====
-- The second half of internal/rules/matcher.go: from the conditions of a rule to one matcher.
-- `GetCachedPattern` stands for `compile_pattern`; its cache is in Rules/Pattern/Cache.
use klaudiush.Prelude.{Bool, true, false, ◌||◌, Option, none, some, List, [], ◌∷◌, if◌then◌else◌}
use klaudiush.Prelude.Bytes.{Str, codes, is_empty, str_eq}
use klaudiush.Prelude.Unicode.{Unicode}
use klaudiush.Prelude.Result.{Result, ok, ◌>>=◌}
use klaudiush.Rules.Types.{RuleMatch}
use klaudiush.Rules.Pattern.{
  Engines, Pattern, PatternOptions, MultiPatternMode, new_regex_pattern, compile_pattern,
  compile_pattern_with_options, compile_content_with_options, compile_multi_pattern,
}
use klaudiush.Rules.Matcher.{Matcher, Matchers, end, also, composite, op_and}

-- The matchers collected so far, or the first error.
abbrev pub Builder : Type 0
Builder = Result Matchers

-- `append(b.matchers, m)`
abbrev pub append_matcher : Matchers → Matcher → Matchers
append_matcher end m = also m end
append_matcher (also n ns) m = also n (append_matcher ns m)

unfoldable pub add_simple : Matcher → Builder → Builder
add_simple m b = do ok (append_matcher (← b) m)

-- A matcher without a pattern is added for a condition that is not empty.
abbrev pub add_condition : (Str → Matcher) → Str → Builder → Builder
add_condition make text b = if is_empty text then b else add_simple (make text) b

-- A factory compiles the text, and the matcher of its kind holds the pattern.
unfoldable pub add_pattern_matcher :
    (Pattern → Matcher) → (Str → Result Pattern) → Str → Builder → Builder
unfolding add_simple
add_pattern_matcher make compile text b =
    if is_empty text
    then b
    else do let ms = (← b); let p = (← compile text); ok (append_matcher ms (make p))

abbrev append_optional : Matchers → (Pattern → Matcher) → Option Pattern → Matchers
append_optional ms make none = ms
append_optional ms make (some p) = append_matcher ms (make p)

-- Several patterns, if given, take the place of the single one.
unfoldable pub add_advanced_pattern_matcher :
    (Pattern → Matcher)
    → (Str → Result Pattern)
    → MultiPatternMode
    → Str
    → List Str
    → Builder
    → Builder
unfolding add_pattern_matcher
add_advanced_pattern_matcher make compile mode text [] b = add_pattern_matcher make compile text b
add_advanced_pattern_matcher make compile mode text (p ∷ ps) b = do
  let ms = (← b)
  let q = (← compile_multi_pattern compile mode (p ∷ ps))
  ok (append_optional ms make q)

abbrev pub combined : Matchers → Option Matcher
combined end = none
combined (also m end) = some m
combined (also m (also n ns)) = some (composite (also m (also n ns)) op_and)

unfoldable pub result : Builder → Result (Option Matcher)
result b = do ok (combined (← b))

-- The conditions without a pattern, which both builders add first.
unfoldable pub add_simple_conditions : RuleMatch → Builder → Builder
unfolding add_simple
add_simple_conditions m b = add_condition Matcher.event_type m.event_type (
    add_condition Matcher.tool_type m.tool_type (
      add_condition Matcher.remote_name m.remote (
        add_condition Matcher.provider m.provider
          (add_condition Matcher.validator_type m.validator_type b))))

unfoldable pub parse_pattern_mode : Unicode → Str → MultiPatternMode
parse_pattern_mode u mode =
    if str_eq (u.to_lower mode) (codes "all")
    then MultiPatternMode.all_of
    else MultiPatternMode.any_of

abbrev pub options_of : RuleMatch → PatternOptions
options_of m = record { case_insensitive = m.case_insensitive; negate = false }

abbrev given : List Str → Bool
given [] = false
given (p ∷ ps) = true

unfoldable pub use_advanced : RuleMatch → Bool
use_advanced m =
    m.case_insensitive
    || given m.repo_patterns
    || given m.branch_patterns
    || given m.file_patterns
    || given m.content_patterns
    || given m.command_patterns

module _ (u : Unicode) (e : Engines) where
  unfoldable pub build_matcher_legacy : RuleMatch → Result (Option Matcher)
  unfolding add_simple_conditions add_pattern_matcher result
  build_matcher_legacy m =
      let compile = compile_pattern u e in
      let b0 = add_simple_conditions m (ok end) in
      let b1 = add_pattern_matcher Matcher.repo_pattern compile m.repo_pattern b0 in
      let b2 = add_pattern_matcher Matcher.branch_pattern compile m.branch_pattern b1 in
      let b3 = add_pattern_matcher Matcher.file_pattern compile m.file_pattern b2 in
      let b4 =
        add_pattern_matcher Matcher.content_pattern (new_regex_pattern u e) m.content_pattern b3 in
      result (add_pattern_matcher Matcher.command_pattern compile m.command_pattern b4)

  unfoldable pub build_matcher_advanced : RuleMatch → Result (Option Matcher)
  unfolding add_simple_conditions add_advanced_pattern_matcher result parse_pattern_mode
  build_matcher_advanced m =
      let opts = options_of m in
      let mode = parse_pattern_mode u m.pattern_mode in
      let compile = compile_pattern_with_options u e opts in
      let content = compile_content_with_options u e opts in
      let b0 = add_simple_conditions m (ok end) in
      let b1 =
        add_advanced_pattern_matcher Matcher.repo_pattern compile mode m.repo_pattern
          m.repo_patterns b0 in
      let b2 =
        add_advanced_pattern_matcher Matcher.branch_pattern compile mode m.branch_pattern
          m.branch_patterns b1 in
      let b3 =
        add_advanced_pattern_matcher Matcher.file_pattern compile mode m.file_pattern
          m.file_patterns b2 in
      let b4 =
        add_advanced_pattern_matcher Matcher.content_pattern content mode m.content_pattern
          m.content_patterns b3 in
      result (
        add_advanced_pattern_matcher Matcher.command_pattern compile mode m.command_pattern
          m.command_patterns b4)

  -- `BuildMatcher`: `ok none` is a nil matcher.
  unfoldable pub build_matcher : Option RuleMatch → Result (Option Matcher)
  build_matcher none = ok none
  build_matcher (some m) =
      if use_advanced m then build_matcher_advanced m else build_matcher_legacy m
