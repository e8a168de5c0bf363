-- ===== src/Rules/Adapter.antt =====
-- internal/rules/adapter.go: the verdict of the rules as a validator's result, or none to go on with
-- the built-in checks. The providers of git and file contexts are read once, and are arguments.
pub mod Laws
use klaudiush.Prelude.{
  ◌≡◌, refl, Bool, true, false, Option, none, some, List, [], ◌∷◌, if◌then◌else◌,
}
use klaudiush.Prelude.Bytes.{Str, is_empty, str_eq}
use klaudiush.Prelude.Unicode.{Unicode}
use klaudiush.Hook.{Context, get_command}
use klaudiush.Validator.{Result, fail, warn, pass, fail_with_ref, warn_with_ref}
use klaudiush.Rules.Types.{
  ValidatorType, Rule, RuleResult, GitContext, FileContext, MatchContext, action_block, action_warn,
  action_allow,
}
use klaudiush.Rules.Pattern.{Engines}
use klaudiush.Rules.Engine.{RuleEngine, evaluate_engine, filter_rules}

abbrev pub match_context :
    Option Context → ValidatorType → Option GitContext → Option FileContext → MatchContext
match_context hook t git file = record {
  hook_context = hook;
  git_context = git;
  file_context = file;
  validator_type = t;
  command = elim hook [ none ↦ [] | some c ↦ get_command c ];
}

module _ (get_suggestion : Str → Str) where
  -- `convertResult`: `none` is nil.
  unfoldable pub convert_result : RuleResult → Option Result
  unfolding fail warn pass fail_with_ref warn_with_ref
  convert_result r =
      if str_eq r.action action_block
      then some (
          if is_empty r.reference
          then fail r.message
          else fail_with_ref get_suggestion r.reference r.message)
      else if str_eq r.action action_warn
      then some (
          if is_empty r.reference
          then warn r.message
          else warn_with_ref get_suggestion r.reference r.message)
      else if str_eq r.action action_allow
      then some pass
      else none

  -- What is made of the evaluation; the outer `none` is a fault.
  abbrev pub converted : Option RuleResult → Option (Option Result)
  converted none = none
  converted (some r) = some (if r.matched then convert_result r else none)

  module _ (u : Unicode) (e : Engines) (t : ValidatorType) where
    -- `CheckRules` and `CheckRulesWithContext` for an engine, which may be nil.
    unfoldable pub check_rules :
        Option RuleEngine
        → Option Context
        → Option GitContext
        → Option FileContext
        → Option (Option Result)
    unfolding convert_result
    check_rules none hook git file = some none
    check_rules (some engine) hook git file =
        converted (evaluate_engine u e engine (match_context hook t git file))

unfoldable pub applicable_rules : ValidatorType → Option RuleEngine → List Rule
applicable_rules t none = []
applicable_rules t (some engine) = filter_rules t engine

abbrev is_given : List Rule → Bool
is_given [] = false
is_given (r ∷ rs) = true

unfoldable pub has_rules_for_validator : ValidatorType → Option RuleEngine → Bool
unfolding applicable_rules
has_rules_for_validator t engine = is_given (applicable_rules t engine)
