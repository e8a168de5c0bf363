-- ===== src/Rules/Adapter/Laws.antt =====
-- The verdict that a validator gets from the rules.
use klaudiush.Prelude.{
  ◌≡◌, refl, ap, ◌≢◌, ◌⊎◌, inl, inr, Bool, true, false, Option, none, some, [], ◌∷◌, All,
  Bool-cases, if◌then◌else◌,
}
use klaudiush.Prelude.Bytes.{Str, codes, is_empty, str_eq}
use klaudiush.Prelude.Bytes.Laws.{str_eq_iff, str_eq_refl}
use klaudiush.Prelude.Unicode.{Unicode}
use klaudiush.Hook.{Context, get_command}
use klaudiush.Validator.{Result, bare_result, fail, warn, pass, fail_with_ref, warn_with_ref}
use klaudiush.Rules.Types.{
  ActionType, ValidatorType, RuleResult, GitContext, FileContext, MatchContext, action_block,
  action_warn, action_allow,
}
use klaudiush.Rules.Pattern.{Engines}
use klaudiush.Rules.Registry.{Registry}
use klaudiush.Rules.Registry.Laws.{Reachable}
use klaudiush.Rules.Evaluator.Laws.{applies, Decides, Outcome, evaluate_rules-Outcome}
use klaudiush.Rules.Engine.{RuleEngine, evaluator_of, evaluate_engine}
use klaudiush.Rules.Adapter.{match_context, convert_result, converted, check_rules}

-- The context is about this event, with its command: the empty one without an event.
pub record IsAbout (hook : Option Context) (git : Option GitContext) (file : Option FileContext)
    (t : ValidatorType) (ctx : MatchContext) : Type 0 where
  pub same_hook : ctx.hook_context ≡ hook
  pub same_git : ctx.git_context ≡ git
  pub same_file : ctx.file_context ≡ file
  pub same_validator : ctx.validator_type ≡ t
  pub same_command :
      ((hook ≡ none) × (ctx.command ≡ []))
      ⊎ ((c : Context) × (hook ≡ some c) × (ctx.command ≡ c.tool_input.command))

match_context-IsAbout :
    (hook : Option Context) (git : Option GitContext) (file : Option FileContext)
    (t : ValidatorType)
    → IsAbout hook git file t (match_context hook t git file)
unfolding get_command
match_context-IsAbout none git file t = record {
  same_hook = refl;
  same_git = refl;
  same_file = refl;
  same_validator = refl;
  same_command = inl (refl, refl);
}
match_context-IsAbout (some c) git file t = record {
  same_hook = refl;
  same_git = refl;
  same_file = refl;
  same_validator = refl;
  same_command = inr (c, refl, refl);
}

empty_is_nil : (s : Str) → is_empty s ≡ true → s ≡ []
empty_is_nil [] h = refl
empty_is_nil (c ∷ s) h = absurd (cc h)

module _ (get_suggestion : Str → Str) where
  -- The check fails for the reason that the rule gives, and blocks or only warns.
  pub record Fails (blocks : Bool) (reason : RuleResult) (v : Result) : Type 0 where
    pub failed : v.passed ≡ false
    pub severity : v.should_block ≡ blocks
    pub message : v.message ≡ reason.message
    pub reference : v.reference ≡ reason.reference
    pub hint :
        v.fix_hint ≡ (if is_empty reason.reference then [] else get_suggestion reason.reference)

  -- What a validator answers for a rule that decided.
  pub data Answers (reason : RuleResult) : Option Result → Type 0 where
    blocked :
        (v : Result) → reason.action ≡ codes "block" → Fails true reason v → Answers reason (some v)
    warned :
        (v : Result) → reason.action ≡ codes "warn" → Fails false reason v → Answers reason (some v)
    allowed :
        (v : Result) → reason.action ≡ codes "allow" → v.passed ≡ true → Answers reason (some v)
    -- Any other action leaves it to the built-in checks.
    undecided :
        reason.action ≢ codes "block"
        → reason.action ≢ codes "warn"
        → reason.action ≢ codes "allow"
        → Answers reason none

  bare_result-Fails :
      (blocks : Bool) (r : RuleResult)
      → Fails blocks r (
          if is_empty r.reference
          then bare_result false blocks r.message
          else record (bare_result false blocks r.message) {
            reference = r.reference;
            fix_hint = get_suggestion r.reference;
          })
  bare_result-Fails blocks r = elim (Bool-cases (is_empty r.reference)) [
    | inl bare ↦ rw bare (record {
      failed = refl;
      severity = refl;
      message = refl;
      reference = rw (empty_is_nil r.reference bare) refl;
      hint = rw bare refl;
    })
    | inr given ↦ rw given (record {
      failed = refl;
      severity = refl;
      message = refl;
      reference = refl;
      hint = rw given refl;
    })
  ]

  differs : (s t : Str) → str_eq s t ≡ false → s ≢ t
  differs s t other same =
      let reflexive : str_eq s t ≡ true = rw same (str_eq_refl t) in cc (other, reflexive)

  convert_result-Answers : (r : RuleResult) → Answers r (convert_result get_suggestion r)
  unfolding convert_result fail warn pass fail_with_ref warn_with_ref
  convert_result-Answers r = elim (Bool-cases (str_eq r.action action_block)) [
    | inl block ↦
        rw block (blocked _ ((str_eq_iff r.action action_block).0 block) (bare_result-Fails true r))
    | inr other ↦ elim (Bool-cases (str_eq r.action action_warn)) [
      | inl warn ↦
          rw (other, warn)
            (warned _ ((str_eq_iff r.action action_warn).0 warn) (bare_result-Fails false r))
      | inr more ↦ elim (Bool-cases (str_eq r.action action_allow)) [
        | inl allow ↦
            rw (other, more, allow) (allowed pass ((str_eq_iff r.action action_allow).0 allow) refl)
        | inr unknown ↦
            rw (other, more, unknown)
              (undecided (differs r.action action_block other) (differs r.action action_warn more)
                (differs r.action action_allow unknown))
      ]
    ]
  ]

  module _ (u : Unicode) (e : Engines) where
    -- The built-in checks go on as no rule applies, or the deciding rule is answered.
    abbrev pub Verdict : MatchContext → Registry → Option Result → Type 0
    Verdict ctx r o =
        (All (λ c. applies u e ctx c ≡ false) r × (o ≡ none))
        ⊎ ((result : RuleResult) × Decides u e r ctx result × Answers result o)

    Verdict-Outcome :
        (ctx : MatchContext) (r : Registry) (default : ActionType) (result : RuleResult)
        → Outcome u e ctx default r result
        → (o : Option Result) × (converted get_suggestion (some result) ≡ some o) × Verdict ctx r o
    Verdict-Outcome ctx r default result (inl (idle, same)) = (none, rw same refl, inl (idle, refl))
    Verdict-Outcome ctx r default result (inr d) =
        let matched = ap (λ (x : RuleResult). x.matched) d.reported in
        (
          convert_result get_suggestion result,
          simp matched refl,
          inr (result, d, convert_result-Answers result),
        )

    -- On an engine whose registry the operations built, `CheckRules` returns, with no fault. The rules
    -- are matched against the event, its command, and the git and file contexts. If the conditions of
    -- no enabled rule hold, there is no result. Otherwise the first rule that applies, in the order of
    -- the registry, decides: to block is a failure that blocks, to warn one that does not, each with
    -- the rule's message and reference and the hint for that; to allow is a pass; and any other action
    -- gives no result.
    pub check_rules-Verdict :
        (t : ValidatorType) (hook : Option Context) (git : Option GitContext)
        (file : Option FileContext) (engine : RuleEngine)
        → Reachable u e engine.registry
        → (ctx : MatchContext) × (o : Option Result) × IsAbout hook git file t ctx
          × (check_rules get_suggestion u e t (some engine) hook git file ≡ some o)
          × Verdict ctx engine.registry o
    unfolding check_rules evaluate_engine
    check_rules-Verdict t hook git file engine reached =
        let ctx = match_context hook t git file in
        let (result, found, outcome) =
          evaluate_rules-Outcome u e (evaluator_of engine) engine.registry ctx refl reached in
        let (o, made, verdict) =
          Verdict-Outcome ctx engine.registry engine.default_action result outcome in
        (ctx, o, match_context-IsAbout hook git file t, rw found made, verdict)
