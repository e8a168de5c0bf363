-- ===== src/Rules/Tests.antt =====
-- Runs of the rule engine at concrete rules, and the instances of its theorems.
mod Contents
mod Patterns
use klaudiush.Prelude.{◌≡◌, refl, true, false, Option, none, some, List, [], ◌∷◌, filter, map}
use klaudiush.Prelude.Bytes.{Str, codes, contains, str_eq, cut_suffix}
use klaudiush.Prelude.Int.{pos}
use klaudiush.Prelude.Named.{put_named}
use klaudiush.Prelude.Sort.{sort}
use klaudiush.Prelude.Unicode.{ascii_only}
use klaudiush.Rules.Types.{RuleMatch, Rule, RuleResult, MatchContext, action_block, action_allow}
use klaudiush.Rules.Pattern.{
  Engines, compile_multi_pattern, matches, compile_pattern_with_options, detect_pattern_type,
  is_negated,
}
use klaudiush.Rules.Matcher.{validator_type_matches, accepts}
use klaudiush.Rules.Matcher.Build.{build_matcher, build_matcher_advanced, use_advanced}
use klaudiush.Rules.Registry.{Registry, comes_first, new_registry, add_all, get_enabled}
use klaudiush.Rules.Registry.Laws.{Reachable}
use klaudiush.Rules.Evaluator.{
  Evaluator, first_match, evaluate_rules, evaluate_all, find_matching_rules, filter_by_validator,
}
use klaudiush.Rules.Evaluator.Laws.{applies, Outcome, evaluate_rules-Outcome}
use klaudiush.Rules.Evaluator.Selection.{
  evaluate_all-find_matching_rules, evaluate_rules-filter_by_validator,
}
use klaudiush.Rules.Engine.{RuleEngine}
use klaudiush.Rules.Adapter.{check_rules}
use klaudiush.Rules.Adapter.Laws.{IsAbout, Verdict, check_rules-Verdict}
use klaudiush.Validator.{Result}

-- Globs with no wildcard, and regular expressions that are plain texts.
abbrev pub plain : Engines
plain = record {
  valid_glob = λ p. true;
  glob_match = str_eq;
  regex_error = λ p. none;
  regex_match = λ p s. contains s p;
}

abbrev pub anything : RuleMatch
anything = record {
  validator_type = [];
  provider = [];
  repo_pattern = [];
  repo_patterns = [];
  remote = [];
  branch_pattern = [];
  branch_patterns = [];
  file_pattern = [];
  file_patterns = [];
  content_pattern = [];
  content_patterns = [];
  command_pattern = [];
  command_patterns = [];
  tool_type = [];
  event_type = [];
  case_insensitive = false;
  pattern_mode = [];
}

abbrev push_to_main : RuleMatch
push_to_main = record anything {
  validator_type = codes "git.*";
  branch_patterns = codes "main" ∷ codes "prod" ∷ [];
}

abbrev pub block_main : Rule
block_main = record {
  name = codes "block-main";
  description = [];
  enabled = true;
  priority = pos 10;
  conditions = some push_to_main;
  action = some (record { type = action_block; message = codes "no"; reference = codes "GIT019" });
}

abbrev pub allow_all : Rule
allow_all = record {
  name = codes "allow-all";
  description = [];
  enabled = true;
  priority = pos 5;
  conditions = none;
  action = some (record { type = action_allow; message = []; reference = [] });
}

abbrev pub context : MatchContext
context = record {
  hook_context = none;
  git_context = some (record {
    repo_root = codes "/r";
    remote = codes "origin";
    branch = codes "prod";
    is_in_repo = true;
  });
  file_context = none;
  validator_type = codes "git.push";
  command = codes "git push";
}

abbrev rules : List (Option Rule)
rules = some allow_all ∷ some block_main ∷ []

abbrev pub registry : Registry
registry = (add_all ascii_only plain rules new_registry).1

pub registry_reached : Reachable ascii_only plain registry
registry_reached = Reachable.added_all rules Reachable.fresh

abbrev evaluator : Evaluator
evaluator = record {
  registry = some registry;
  stop_on_first_match = true;
  default_action = action_allow;
}

evaluate_test :
    evaluate_rules ascii_only plain evaluator context
    ≡ some (record {
      matched = true;
      rule = some block_main;
      action = action_block;
      message = codes "no";
      reference = codes "GIT019";
    })
unfolding codes add_all build_matcher new_registry evaluate_rules get_enabled use_advanced
    build_matcher_advanced compile_multi_pattern compile_pattern_with_options detect_pattern_type
    contains is_negated sort put_named str_eq comes_first accepts validator_type_matches cut_suffix
    matches
evaluate_test = refl

evaluate_rules-Outcome_example :
    (result : RuleResult) × (evaluate_rules ascii_only plain evaluator context ≡ some result)
    × Outcome ascii_only plain context action_allow registry result
evaluate_rules-Outcome_example =
    evaluate_rules-Outcome ascii_only plain evaluator registry context refl registry_reached

evaluate_all-find_matching_rules_example :
    (rs : List RuleResult) × (evaluate_all ascii_only plain evaluator context ≡ some rs)
    × (map (λ x. x.rule) rs
        ≡ map (λ c. some c.rule) (filter (applies ascii_only plain context) registry))
    × (find_matching_rules ascii_only plain evaluator context
        ≡ map (λ c. c.rule) (filter (applies ascii_only plain context) registry))
evaluate_all-find_matching_rules_example =
    evaluate_all-find_matching_rules ascii_only plain context evaluator registry refl
      registry_reached

evaluate_rules-filter_by_validator_example :
    first_match ascii_only plain context action_allow
      (filter_by_validator evaluator (codes "git.push"))
    ≡ evaluate_rules ascii_only plain evaluator context
evaluate_rules-filter_by_validator_example =
    evaluate_rules-filter_by_validator ascii_only plain context evaluator registry refl
      registry_reached

abbrev rule_engine : RuleEngine
rule_engine = record {
  registry = registry;
  stop_on_first_match = true;
  default_action = action_allow;
}

abbrev no_suggestion : Str → Str
no_suggestion reference = []

check_rules-Verdict_example :
    (ctx : MatchContext) × (o : Option Result) × IsAbout none context.git_context none
      (codes "git.push")
      ctx
    × (check_rules no_suggestion ascii_only plain
          (codes "git.push")
          (some rule_engine)
          none
          context.git_context
          none
        ≡ some o)
    × Verdict no_suggestion ascii_only plain ctx registry o
check_rules-Verdict_example =
    check_rules-Verdict no_suggestion ascii_only plain (codes "git.push") none context.git_context
      none rule_engine registry_reached
