-- ===== src/Rules/Engine.antt =====
-- internal/rules/engine.go: the registry and its evaluator as one engine. The evaluator's pointer
-- to the registry is the same registry, so the engine keeps only one. Logging is left out.
use klaudiush.Prelude.{ℕ, Bool, Option, none, some, List, map}
use klaudiush.Prelude.Bytes.{Str}
use klaudiush.Prelude.Unicode.{Unicode}
use klaudiush.Prelude.Result.{Result, ok, err}
use klaudiush.Hook.{Context, get_command}
use klaudiush.Rules.Types.{
  ActionType, ValidatorType, Rule, RuleResult, MatchContext, GitContext, FileContext,
}
use klaudiush.Rules.Pattern.{Engines}
use klaudiush.Rules.Registry.{
  Registry, new_registry, add, add_all, remove, get, get_all, get_enabled, size, merge,
}
use klaudiush.Rules.Evaluator.{Evaluator, evaluate_rules, filter_by_validator}

pub record RuleEngine : Type 0 where
  pub registry : Registry
  pub stop_on_first_match : Bool
  pub default_action : ActionType

abbrev pub evaluator_of : RuleEngine → Evaluator
evaluator_of engine = record {
  registry = some engine.registry;
  stop_on_first_match = engine.stop_on_first_match;
  default_action = engine.default_action;
}

module _ (u : Unicode) (e : Engines) where
  abbrev engine_of : Bool → ActionType → Option Str × Registry → Result RuleEngine
  engine_of stop action (some error, r) = err error
  engine_of stop action (none, r) =
      ok (record { registry = r; stop_on_first_match = stop; default_action = action })

  -- `NewRuleEngine` with the values that its options set.
  unfoldable pub new_rule_engine :
      List (Option Rule) → (stop : Bool) → (action : ActionType) → Result RuleEngine
  new_rule_engine rules stop action = engine_of stop action (add_all u e rules new_registry)

  unfoldable pub evaluate_engine : RuleEngine → MatchContext → Option RuleResult
  evaluate_engine engine ctx = evaluate_rules u e (evaluator_of engine) ctx

  abbrev command_or_empty : Option Context → Str
  command_or_empty none = List.[]
  command_or_empty (some c) = get_command c

  unfoldable pub evaluate_hook :
      RuleEngine
      → Option Context
      → ValidatorType
      → Option GitContext
      → Option FileContext
      → Option RuleResult
  unfolding evaluate_engine
  evaluate_hook engine hook validator git file = evaluate_engine engine (record {
    hook_context = hook;
    git_context = git;
    file_context = file;
    validator_type = validator;
    command = command_or_empty hook;
  })

  unfoldable pub add_rule : Option Rule → RuleEngine → Option Str × RuleEngine
  add_rule rule engine =
      let (error, r) = add u e rule engine.registry in (error, record engine { registry = r })

unfoldable pub remove_rule : Str → RuleEngine → Bool × RuleEngine
remove_rule name engine =
    let (found, r) = remove name engine.registry in (found, record engine { registry = r })

unfoldable pub get_rule : Str → RuleEngine → Option Rule
get_rule name engine = elim (get name engine.registry) [ none ↦ none | some c ↦ some c.rule ]

unfoldable pub get_all_rules : RuleEngine → List Rule
get_all_rules engine = map (λ c. c.rule) (get_all engine.registry)

unfoldable pub get_enabled_rules : RuleEngine → List Rule
get_enabled_rules engine = map (λ c. c.rule) (get_enabled engine.registry)

unfoldable pub engine_size : RuleEngine → ℕ
engine_size engine = size engine.registry

unfoldable pub filter_rules : ValidatorType → RuleEngine → List Rule
filter_rules t engine = map (λ c. c.rule) (filter_by_validator (evaluator_of engine) t)

-- `Merge`; a nil engine changes nothing.
unfoldable pub merge_engine : Option RuleEngine → RuleEngine → RuleEngine
merge_engine none engine = engine
merge_engine (some other) engine = record engine {
  registry = merge (some other.registry) engine.registry;
}
