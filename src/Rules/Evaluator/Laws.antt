-- ===== src/Rules/Evaluator/Laws.antt =====
-- The rule that decides, told from the registry and from the conditions of its rules.
use klaudiush.Prelude.{
  ◌≡◌, refl, ap, ◌∙◌, ◌⊎◌, inl, inr, Bool, true, false, ◌&&◌, Option, none, some, [], ◌∷◌, ◌++◌,
  arith, All, Bool-cases, Option-cases, filter,
}
use klaudiush.Prelude.Maps.{get_or}
use klaudiush.Prelude.Sort.{IsSorted}
use klaudiush.Prelude.Unicode.{Unicode}
use klaudiush.Rules.Types.{ActionType, RuleAction, RuleResult, MatchContext}
use klaudiush.Rules.Pattern.{Engines}
use klaudiush.Rules.Matcher.{Matcher, accepts, always}
use klaudiush.Rules.Matcher.Conditions.{accepts_optional, satisfies}
use klaudiush.Rules.Matcher.Laws.{build_matcher-satisfies}
use klaudiush.Rules.Registry.{CompiledRule, Registry, compiled_first, get_enabled}
use klaudiush.Rules.Registry.Laws.{IsCompiled, Reachable, Reachable-IsRegistry}
use klaudiush.Rules.Evaluator.{Evaluator, unmatched, matched_by, first_match, evaluate_rules}

module _ (u : Unicode) (e : Engines) where
  -- An enabled rule whose conditions hold of the context.
  abbrev pub applies : MatchContext → CompiledRule → Bool
  applies ctx c = c.rule.enabled && satisfies u e c.rule.conditions ctx

  -- This rule of the registry decides: it applies, and every rule that applies comes after it or is
  -- it.
  pub record Decides (r : Registry) (ctx : MatchContext) (result : RuleResult) : Type 0 where
    pub before : Registry
    pub winner : CompiledRule
    pub after : Registry
    pub action : RuleAction
    pub position : r ≡ before ++ winner ∷ after
    pub applies_here : applies ctx winner ≡ true
    pub none_before : All (λ c. applies ctx c ≡ false) before
    pub rest_after : All (λ c. compiled_first winner c ≡ true) after
    pub acts : winner.rule.action ≡ some action
    pub reported : result ≡ matched_by winner.rule action

  or_always :
      (ctx : MatchContext) (o : Option Matcher)
      → accepts u e (get_or o always) ctx ≡ accepts_optional u e o ctx
  unfolding accepts
  or_always ctx none = refl
  or_always ctx (some m) = refl

  pub accepts-satisfies :
      (ctx : MatchContext) (c : CompiledRule)
      → IsCompiled u e c
      → accepts u e c.matcher ctx ≡ satisfies u e c.rule.conditions ctx
  accepts-satisfies ctx c i = rw i.holds (
      or_always ctx i.matcher ∙ build_matcher-satisfies u e ctx c.rule.conditions i.matcher i.built)

  first_match_skip :
      (ctx : MatchContext) (default : ActionType) (c : CompiledRule) (r : Registry)
      → (c.rule.enabled && accepts u e c.matcher ctx) ≡ false
      → first_match u e ctx default (filter (λ c. c.rule.enabled) (c ∷ r))
        ≡ first_match u e ctx default (filter (λ c. c.rule.enabled) r)
  unfolding first_match
  first_match_skip ctx default c r h = ground (arith, h)

  first_match_here :
      (ctx : MatchContext) (default : ActionType) (c : CompiledRule) (r : Registry)
      (action : RuleAction)
      → c.rule.enabled ≡ true
      → accepts u e c.matcher ctx ≡ true
      → c.rule.action ≡ some action
      → first_match u e ctx default (filter (λ c. c.rule.enabled) (c ∷ r))
        ≡ some (matched_by c.rule action)
  unfolding first_match
  first_match_here ctx default c r action on accepted acts =
      simp (on, accepted, acts, first_match) refl

  -- What `first_match` returns for these rules: no rule applies, or one decides.
  abbrev pub Outcome : MatchContext → ActionType → Registry → RuleResult → Type 0
  Outcome ctx default r result =
      (All (λ c. applies ctx c ≡ false) r × (result ≡ unmatched default)) ⊎ Decides r ctx result

  Outcome-cons :
      (ctx : MatchContext) (default : ActionType) (c : CompiledRule) (r : Registry)
      (result : RuleResult)
      → applies ctx c ≡ false
      → Outcome ctx default r result
      → Outcome ctx default (c ∷ r) result
  Outcome-cons ctx default c r result idle (inl (unmet, same)) = inl ((idle, unmet), same)
  Outcome-cons ctx default c r result idle (inr d) = inr (record {
    before = c ∷ d.before;
    winner = d.winner;
    after = d.after;
    action = d.action;
    position = ap (◌∷◌ c) d.position;
    applies_here = d.applies_here;
    none_before = (idle, d.none_before);
    rest_after = d.rest_after;
    acts = d.acts;
    reported = d.reported;
  })

  first_match-Outcome :
      (ctx : MatchContext) (default : ActionType) (r : Registry)
      → IsSorted compiled_first r
      → All (IsCompiled u e) r
      → (result : RuleResult) × (first_match u e ctx default (filter (λ c. c.rule.enabled) r)
          ≡ some result)
        × Outcome ctx default r result
  unfolding first_match
  first_match-Outcome ctx default [] s i = (unmatched default, refl, inl (tt, refl))
  first_match-Outcome ctx default (c ∷ r) (below, s) (j, i) =
      let (result, rest, o) = first_match-Outcome ctx default r s i in
      let same = accepts-satisfies ctx c j in
      elim (Bool-cases c.rule.enabled) [
        | inr off ↦
            let idle : applies ctx c ≡ false = ground (arith, off) in
            (
              result,
              first_match_skip ctx default c r (ground (arith, off)) ∙ rest,
              Outcome-cons ctx default c r result idle o,
            )
        | inl on ↦ elim (Bool-cases (accepts u e c.matcher ctx)) [
          | inr refused ↦
              let idle : applies ctx c ≡ false = ground (arith, refused, same) in
              (
                result,
                first_match_skip ctx default c r (ground (arith, refused)) ∙ rest,
                Outcome-cons ctx default c r result idle o,
              )
          | inl accepted ↦ elim (Option-cases c.rule.action) [
            | inl missing ↦ cc (rw missing at j.acts)
            | inr (action, acts) ↦ (
              matched_by c.rule action,
              first_match_here ctx default c r action on accepted acts,
              inr (record {
                before = [];
                winner = c;
                after = r;
                action = action;
                position = refl;
                applies_here = ground (arith, on, accepted, same);
                none_before = tt;
                rest_after = below;
                acts = acts;
                reported = refl;
              }),
            )
          ]
        ]
      ]

  -- On a registry that the operations built, `Evaluate` returns, with no fault. If no enabled rule
  -- has its conditions met, the result is unmatched with the default action. Otherwise the result
  -- is of an enabled rule with its conditions met, with that rule's action, message and reference,
  -- and every other such rule stands behind it by priority and name.
  pub evaluate_rules-Outcome :
      (ev : Evaluator) (r : Registry) (ctx : MatchContext)
      → ev.registry ≡ some r
      → Reachable u e r
      → (result : RuleResult) × (evaluate_rules u e ev ctx ≡ some result)
        × Outcome ctx ev.default_action r result
  unfolding evaluate_rules get_enabled
  evaluate_rules-Outcome ev r ctx h reached =
      let i = Reachable-IsRegistry u e r reached in
      rw h (first_match-Outcome ctx ev.default_action r i.sorted i.compiled)
