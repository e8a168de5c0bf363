-- ===== src/Rules/Matcher/Conditions.antt =====
-- What the conditions of a rule ask of a context, told apart from how the matcher is built.
use klaudiush.Prelude.{
  Bool, true, not, ◌&&◌, ◌||◌, Option, none, some, List, [], ◌∷◌, if◌then◌else◌,
}
use klaudiush.Prelude.Bytes.{Str, is_empty}
use klaudiush.Prelude.Unicode.{Unicode}
use klaudiush.Prelude.Result.{Result}
use klaudiush.Hook.{get_command, get_file_path, get_content}
use klaudiush.Rules.Types.{RuleMatch, MatchContext}
use klaudiush.Rules.Pattern.{
  Engines, Pattern, MultiPatternMode, new_regex_pattern, compile_pattern,
  compile_pattern_with_options, compile_content_with_options,
}
use klaudiush.Rules.Pattern.Laws.{result_matches, combine}
use klaudiush.Rules.Matcher.{Matcher, accepts, on, given, file_text}
use klaudiush.Rules.Matcher.Build.{parse_pattern_mode, use_advanced, options_of}

-- The text of a context that a kind of pattern is about, put to a test.
abbrev pub Reader : Type 0
Reader = (Str → Bool) → MatchContext → Bool

abbrev pub repo_root : Reader
repo_root f ctx = on ctx.git_context (λ g. given g.repo_root f)

abbrev pub branch : Reader
branch f ctx = on ctx.git_context (λ g. given g.branch f)

abbrev pub file_path : Reader
file_path f ctx = file_text (λ file. file.path) get_file_path ctx f

abbrev pub content : Reader
content f ctx = file_text (λ file. file.content) get_content ctx f

abbrev pub command : Reader
command f ctx =
    if not (is_empty ctx.command)
    then f ctx.command
    else on ctx.hook_context (λ h. f (get_command h))

module _ (u : Unicode) (e : Engines) where
  -- No matcher accepts everything.
  abbrev pub accepts_optional : Option Matcher → MatchContext → Bool
  accepts_optional none ctx = true
  accepts_optional (some m) ctx = accepts u e m ctx

  -- A condition that is not given holds.
  abbrev pub condition : (Str → Matcher) → Str → MatchContext → Bool
  condition make text ctx = is_empty text || accepts u e (make text) ctx

  abbrev pub pattern_condition : Reader → (Str → Result Pattern) → Str → MatchContext → Bool
  pattern_condition read compile text ctx =
      is_empty text || read (λ s. result_matches u e (compile text) s) ctx

  abbrev pub patterns_condition :
      Reader → (Str → Result Pattern) → MultiPatternMode → Str → List Str → MatchContext → Bool
  patterns_condition read compile mode text [] ctx = pattern_condition read compile text ctx
  patterns_condition read compile mode text (p ∷ ps) ctx =
      read (λ s. combine u e mode (λ q. result_matches u e (compile q) s) (p ∷ ps)) ctx

  abbrev pub simple_conditions : RuleMatch → MatchContext → Bool
  simple_conditions m ctx =
      (((condition Matcher.validator_type m.validator_type ctx
            && condition Matcher.provider m.provider ctx)
          && condition Matcher.remote_name m.remote ctx)
        && condition Matcher.tool_type m.tool_type ctx)
      && condition Matcher.event_type m.event_type ctx

  -- The content pattern of this builder is a plain regular expression: a leading ! does not negate.
  abbrev pub legacy_conditions : RuleMatch → MatchContext → Bool
  legacy_conditions m ctx =
      let compile = compile_pattern u e in
      ((((simple_conditions m ctx && pattern_condition repo_root compile m.repo_pattern ctx)
            && pattern_condition branch compile m.branch_pattern ctx)
          && pattern_condition file_path compile m.file_pattern ctx)
        && pattern_condition content (new_regex_pattern u e) m.content_pattern ctx)
      && pattern_condition command compile m.command_pattern ctx

  abbrev pub advanced_conditions : RuleMatch → MatchContext → Bool
  advanced_conditions m ctx =
      let opts = options_of m in
      let mode = parse_pattern_mode u m.pattern_mode in
      let compile = compile_pattern_with_options u e opts in
      let regex = compile_content_with_options u e opts in
      ((((simple_conditions m ctx
              && patterns_condition repo_root compile mode m.repo_pattern m.repo_patterns ctx)
            && patterns_condition branch compile mode m.branch_pattern m.branch_patterns ctx)
          && patterns_condition file_path compile mode m.file_pattern m.file_patterns ctx)
        && patterns_condition content regex mode m.content_pattern m.content_patterns ctx)
      && patterns_condition command compile mode m.command_pattern m.command_patterns ctx

  -- Every given condition holds of the context.
  unfoldable pub satisfies : Option RuleMatch → MatchContext → Bool
  satisfies none ctx = true
  satisfies (some m) ctx =
      if use_advanced m then advanced_conditions m ctx else legacy_conditions m ctx
