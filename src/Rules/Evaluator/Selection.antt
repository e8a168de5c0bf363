-- ===== src/Rules/Evaluator/Selection.antt =====
-- All results at once, and the rules for one validator.
use klaudiush.Prelude.{
  ◌≡◌, refl, inl, inr, true, Option, none, some, List, [], ◌∷◌, arith, All, Bool-cases,
  Option-cases, filter, map,
}
use klaudiush.Prelude.Unicode.{Unicode}
use klaudiush.Rules.Types.{ActionType, RuleMatch, RuleResult, MatchContext}
use klaudiush.Rules.Pattern.{Engines}
use klaudiush.Rules.Matcher.{Matcher, accepts}
use klaudiush.Rules.Matcher.Conditions.{condition, satisfies}
use klaudiush.Rules.Matcher.Build.{use_advanced}
use klaudiush.Rules.Registry.{Registry, get_enabled}
use klaudiush.Rules.Registry.Laws.{IsCompiled, Reachable, Reachable-IsRegistry}
use klaudiush.Rules.Evaluator.{
  Evaluator, matched_by, first_match, evaluate_rules, all_results, evaluate_all,
  find_matching_rules, applies_to, filter_by_validator,
}
use klaudiush.Rules.Evaluator.Laws.{applies, accepts-satisfies}

module _ (u : Unicode) (e : Engines) (ctx : MatchContext) where
  matching :
      (r : Registry)
      → All (IsCompiled u e) r
      → filter (λ c. accepts u e c.matcher ctx) (filter (λ c. c.rule.enabled) r)
        ≡ filter (applies u e ctx) r
  matching [] i = refl
  matching (c ∷ r) (j, i) = ground (arith, matching r i, accepts-satisfies u e ctx c j)

  all_results-matching :
      (r : Registry)
      → All (IsCompiled u e) r
      → (rs : List RuleResult) × (all_results u e ctx (filter (λ c. c.rule.enabled) r) ≡ some rs)
        × (map (λ x. x.rule) rs ≡ map (λ c. some c.rule) (filter (applies u e ctx) r))
  unfolding all_results
  all_results-matching [] i = ([], refl, refl)
  all_results-matching (c ∷ r) (j, i) =
      let (rs, found, listed) = all_results-matching r i in
      let same = accepts-satisfies u e ctx c j in
      elim (Bool-cases (applies u e ctx c)) [
        | inr idle ↦ (rs, ground (arith, idle, same, found), ground (arith, idle, listed))
        | inl here ↦ elim (Option-cases c.rule.action) [
          | inl missing ↦ cc (rw missing at j.acts)
          | inr (action, acts) ↦ (
            matched_by c.rule action ∷ rs,
            ground (arith, here, same, found, acts),
            ground (arith, here, listed),
          )
        ]
      ]

  -- On a registry that the operations built, `EvaluateAll` returns, with no fault, one result for
  -- each enabled rule whose conditions hold, in the registry's order, and `FindMatchingRules` the
  -- same rules.
  pub evaluate_all-find_matching_rules :
      (ev : Evaluator) (r : Registry)
      → ev.registry ≡ some r
      → Reachable u e r
      → (rs : List RuleResult) × (evaluate_all u e ev ctx ≡ some rs)
        × (map (λ x. x.rule) rs ≡ map (λ c. some c.rule) (filter (applies u e ctx) r))
        × (find_matching_rules u e ev ctx ≡ map (λ c. c.rule) (filter (applies u e ctx) r))
  unfolding evaluate_all find_matching_rules get_enabled
  evaluate_all-find_matching_rules ev r h reached =
      let i = (Reachable-IsRegistry u e r reached).compiled in
      let (rs, found, listed) = all_results-matching r i in
      rw (h, found, matching r i) (rs, refl, listed, refl)

  satisfies-applies_to :
      (conditions : Option RuleMatch)
      → satisfies u e conditions ctx ≡ true
      → applies_to ctx.validator_type conditions ≡ true
  unfolding satisfies accepts
  satisfies-applies_to none h = refl
  satisfies-applies_to (some m) h =
      elim (Bool-cases (condition u e Matcher.validator_type m.validator_type ctx)) [
        | inl asked ↦ ground (arith, asked)
        | inr other ↦ elim (Bool-cases (use_advanced m)) [
          | inl rich ↦ absurd (cc (rw (rich, other) at h))
          | inr plain ↦ absurd (cc (rw (plain, other) at h))
        ]
      ]

  first_match-filter :
      (default : ActionType) (r : Registry)
      → All (IsCompiled u e) r
      → first_match u e ctx default (
          filter
            (λ c. applies_to ctx.validator_type c.rule.conditions)
            (filter (λ c. c.rule.enabled) r))
        ≡ first_match u e ctx default (filter (λ c. c.rule.enabled) r)
  unfolding first_match
  first_match-filter default [] i = refl
  first_match-filter default (c ∷ r) (j, i) = ground (
    arith,
    first_match-filter default r i,
    accepts-satisfies u e ctx c j,
    satisfies-applies_to c.rule.conditions,
  )

  -- The rules that `FilterByValidator` leaves for the context's validator decide as all rules do: on
  -- a registry that the operations built.
  pub evaluate_rules-filter_by_validator :
      (ev : Evaluator) (r : Registry)
      → ev.registry ≡ some r
      → Reachable u e r
      → first_match u e ctx ev.default_action (filter_by_validator ev ctx.validator_type)
        ≡ evaluate_rules u e ev ctx
  unfolding evaluate_rules filter_by_validator get_enabled
  evaluate_rules-filter_by_validator ev r h reached =
      rw h (first_match-filter ev.default_action r (Reachable-IsRegistry u e r reached).compiled)
