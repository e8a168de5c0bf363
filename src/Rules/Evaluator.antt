-- ===== src/Rules/Evaluator.antt =====
-- internal/rules/evaluator.go: the first enabled rule that accepts a context decides.
pub mod Laws
pub mod Selection
use klaudiush.Prelude.{
  Bool, true, false, not, Option, none, some, List, [], ◌∷◌, map, filter, if◌then◌else◌,
}
use klaudiush.Prelude.Bytes.{Str, is_empty}
use klaudiush.Prelude.Unicode.{Unicode}
use klaudiush.Rules.Types.{
  ActionType, ValidatorType, Rule, RuleMatch, RuleAction, RuleResult, MatchContext, action_allow,
}
use klaudiush.Rules.Pattern.{Engines}
use klaudiush.Rules.Matcher.{accepts, validator_type_matches}
use klaudiush.Rules.Registry.{CompiledRule, Registry, get_enabled}

-- The code stores `stopOnFirstMatch` and never reads it. A nil registry is `none`.
pub record Evaluator : Type 0 where
  pub registry : Option Registry
  pub stop_on_first_match : Bool
  pub default_action : ActionType

unfoldable pub new_evaluator : Option Registry → Evaluator
new_evaluator registry = record {
  registry = registry;
  stop_on_first_match = true;
  default_action = action_allow;
}

abbrev pub unmatched : ActionType → RuleResult
unmatched action = record {
  matched = false;
  rule = none;
  action = action;
  message = [];
  reference = [];
}

abbrev pub matched_by : Rule → RuleAction → RuleResult
matched_by rule action = record {
  matched = true;
  rule = some rule;
  action = action.type;
  message = action.message;
  reference = action.reference;
}

-- A rule without an action is a nil pointer that the code follows: `none` is that fault.
abbrev pub result_of : Rule → Option RuleAction → Option RuleResult
result_of rule none = none
result_of rule (some action) = some (matched_by rule action)

abbrev cons_result : Option RuleResult → Option (List RuleResult) → Option (List RuleResult)
cons_result none rest = none
cons_result (some r) none = none
cons_result (some r) (some rs) = some (r ∷ rs)

module _ (u : Unicode) (e : Engines) where
  -- The loop of `Evaluate`.
  unfoldable pub first_match : MatchContext → ActionType → List CompiledRule → Option RuleResult
  first_match ctx default [] = some (unmatched default)
  first_match ctx default (c ∷ cs) =
      if accepts u e c.matcher ctx
      then result_of c.rule c.rule.action
      else first_match ctx default cs

  unfoldable pub evaluate_rules : Evaluator → MatchContext → Option RuleResult
  unfolding first_match
  evaluate_rules ev ctx = elim ev.registry [
    | none ↦ some (unmatched ev.default_action)
    | some registry ↦ first_match ctx ev.default_action (get_enabled registry)
  ]

  -- The loop of `EvaluateAll`.
  unfoldable pub all_results : MatchContext → List CompiledRule → Option (List RuleResult)
  all_results ctx [] = some []
  all_results ctx (c ∷ cs) =
      let rest = all_results ctx cs in
      if accepts u e c.matcher ctx then cons_result (result_of c.rule c.rule.action) rest else rest

  unfoldable pub evaluate_all : Evaluator → MatchContext → Option (List RuleResult)
  unfolding all_results
  evaluate_all ev ctx = elim ev.registry [
    | none ↦ some []
    | some registry ↦ all_results ctx (get_enabled registry)
  ]

  unfoldable pub find_matching_rules : Evaluator → MatchContext → List Rule
  find_matching_rules ev ctx = elim ev.registry [
    | none ↦ []
    | some registry ↦
        map (λ c. c.rule) (filter (λ c. accepts u e c.matcher ctx) (get_enabled registry))
  ]

-- A rule that asks for no validator, or for this one.
abbrev pub applies_to : ValidatorType → Option RuleMatch → Bool
applies_to t none = true
applies_to t (some m) =
    if is_empty m.validator_type then true else validator_type_matches m.validator_type t

unfoldable pub filter_by_validator : Evaluator → ValidatorType → List CompiledRule
filter_by_validator ev t = elim ev.registry [
  | none ↦ []
  | some registry ↦ filter (λ c. applies_to t c.rule.conditions) (get_enabled registry)
]
