-- ===== src/Rules/Matcher/Laws.antt =====
-- A matcher that was built accepts a context exactly if every given condition of the rule holds.
use mathlib.Core.Path.{fun_ext}
use klaudiush.Prelude.{
  ◌≡◌, refl, ap, ◌∙◌, inl, inr, Bool, true, ◌&&◌, Option, none, some, List, [], ◌∷◌, arith,
  Bool-cases,
}
use klaudiush.Prelude.Bytes.{Str}
use klaudiush.Prelude.Unicode.{Unicode}
use klaudiush.Prelude.Result.{Result, ok, err, Result-cases}
use klaudiush.Rules.Types.{RuleMatch, MatchContext}
use klaudiush.Rules.Pattern.{
  Engines, Pattern, MultiPatternMode, new_regex_pattern, compile_pattern,
  compile_pattern_with_options, compile_content_with_options, compile_multi_pattern, matches,
}
use klaudiush.Rules.Pattern.Laws.{
  result_matches, combine, compile_multi_pattern-matches, compile_multi_pattern_some,
}
use klaudiush.Rules.Matcher.{Matcher, Matchers, end, also, accepts, accepts_all}
use klaudiush.Rules.Matcher.Build.{
  Builder, append_matcher, add_simple, add_condition, add_pattern_matcher,
  add_advanced_pattern_matcher, combined, result, add_simple_conditions, parse_pattern_mode,
  use_advanced, build_matcher_legacy, options_of, build_matcher_advanced, build_matcher,
}
use klaudiush.Rules.Matcher.Conditions.{
  Reader, repo_root, branch, file_path, content, command, accepts_optional, condition,
  pattern_condition, patterns_condition, simple_conditions, legacy_conditions, advanced_conditions,
  satisfies,
}

module _ (u : Unicode) (e : Engines) where
  module _ (ctx : MatchContext) where
    -- Once built, the matchers accept the context exactly if `b` holds.
    Meets : Builder → Bool → Type 0
    Meets builder b = (ms : Matchers) → builder ≡ ok ms → accepts_all u e ms ctx ≡ b

    accepts_all-append :
        (ms : Matchers) (m : Matcher)
        → accepts_all u e (append_matcher ms m) ctx ≡ (accepts_all u e ms ctx && accepts u e m ctx)
    unfolding accepts
    accepts_all-append end m = ground arith
    accepts_all-append (also n ns) m = ground (arith, accepts_all-append ns m)

    accepts_optional-combined :
        (ms : Matchers) → accepts_optional u e (combined ms) ctx ≡ accepts_all u e ms ctx
    unfolding accepts
    accepts_optional-combined end = refl
    accepts_optional-combined (also m end) = ground arith
    accepts_optional-combined (also m (also n ns)) = refl

    Meets-err : (error : Str) (b : Bool) → Meets (err error) b
    unfolding Meets
    Meets-err error b ms h = cc

    Meets-ok : (ms : Matchers) (b : Bool) → accepts_all u e ms ctx ≡ b → Meets (ok ms) b
    unfolding Meets
    Meets-ok ms b k ms' h = let same : ms ≡ ms' = cc h in rw (← same) k

    Meets-skip : (builder : Builder) (b : Bool) → Meets builder b → Meets builder (b && true)
    unfolding Meets
    Meets-skip builder b met ms h = ground (arith, met ms h)

    Meets-now : (ms : Matchers) (b : Bool) → Meets (ok ms) b → accepts_all u e ms ctx ≡ b
    unfolding Meets
    Meets-now ms b met = met ms refl

    Meets-append :
        (ms : Matchers) (m : Matcher) (b c : Bool)
        → Meets (ok ms) b
        → accepts u e m ctx ≡ c
        → Meets (ok (append_matcher ms m)) (b && c)
    Meets-append ms m b c met k =
        Meets-ok _ _ (ground (arith, accepts_all-append ms m, Meets-now ms b met, k))

    Meets-add_condition :
        (make : Str → Matcher) (text : Str) (builder : Builder) (b : Bool)
        → Meets builder b
        → Meets (add_condition make text builder) (b && condition u e make text ctx)
    unfolding add_simple
    Meets-add_condition make [] builder b met = Meets-skip builder b met
    Meets-add_condition make (c ∷ text) (err error) b met = Meets-err error _
    Meets-add_condition make (c ∷ text) (ok ms) b met =
        Meets-append ms (make (c ∷ text)) b _ met refl

    Meets-add_pattern_matcher :
        (make : Pattern → Matcher) (read : Reader)
        → ((p : Pattern) → accepts u e (make p) ctx ≡ read (matches u e p) ctx)
        → (compile : Str → Result Pattern) (text : Str) (builder : Builder) (b : Bool)
        → Meets builder b
        → Meets
            (add_pattern_matcher make compile text builder)
            (b && pattern_condition u e read compile text ctx)
    unfolding add_pattern_matcher
    Meets-add_pattern_matcher make read reads compile [] builder b met = Meets-skip builder b met
    Meets-add_pattern_matcher make read reads compile (c ∷ text) (err error) b met =
        Meets-err error _
    Meets-add_pattern_matcher make read reads compile (c ∷ text) (ok ms) b met =
        elim (Result-cases (compile (c ∷ text))) [
          | inr (error, failed) ↦ rw failed (Meets-err error _)
          | inl (p, made) ↦ rw made (Meets-append ms (make p) b _ met (reads p))
        ]

    Meets-add_advanced_pattern_matcher :
        (make : Pattern → Matcher) (read : Reader)
        → ((p : Pattern) → accepts u e (make p) ctx ≡ read (matches u e p) ctx)
        → (compile : Str → Result Pattern) (mode : MultiPatternMode) (text : Str) (ps : List Str)
        → (builder : Builder) (b : Bool) → Meets builder b
        → Meets
            (add_advanced_pattern_matcher make compile mode text ps builder)
            (b && patterns_condition u e read compile mode text ps ctx)
    unfolding add_advanced_pattern_matcher
    Meets-add_advanced_pattern_matcher make read reads compile mode text [] builder b met =
        Meets-add_pattern_matcher make read reads compile text builder b met
    Meets-add_advanced_pattern_matcher make read reads compile mode text (p ∷ ps) (err error) b
          met =
        Meets-err error _
    Meets-add_advanced_pattern_matcher make read reads compile mode text (p ∷ ps) (ok ms) b met =
        elim (Result-cases (compile_multi_pattern compile mode (p ∷ ps))) [
          | inr (error, failed) ↦ rw failed (Meets-err error _)
          | inl (none, made) ↦ cc (compile_multi_pattern_some u e compile mode p ps none made)
          | inl (some q, made) ↦
              let same : matches u e q
                  ≡ (λ s. combine u e mode (λ q. result_matches u e (compile q) s) (p ∷ ps)) =
                fun_ext (λ s. compile_multi_pattern-matches u e compile mode (p ∷ ps) q s made) in
              rw made (
                Meets-append ms (make q) b _ met
                  (reads q ∙ ap (λ (f : Str → Bool). read f ctx) same))
        ]

    Meets-simple_conditions :
        (m : RuleMatch) → Meets (add_simple_conditions m (ok end)) (simple_conditions u e m ctx)
    unfolding add_simple_conditions accepts_all
    Meets-simple_conditions m = Meets-add_condition Matcher.event_type m.event_type _ _ (
        Meets-add_condition Matcher.tool_type m.tool_type _ _ (
          Meets-add_condition Matcher.remote_name m.remote _ _ (
            Meets-add_condition Matcher.provider m.provider _ _ (
              Meets-add_condition Matcher.validator_type m.validator_type _ _
                (Meets-ok end true refl)))))

    Meets-result :
        (builder : Builder) (b : Bool) (o : Option Matcher)
        → Meets builder b
        → result builder ≡ ok o
        → accepts_optional u e o ctx ≡ b
    unfolding result
    Meets-result (err error) b o met h = cc
    Meets-result (ok ms) b o met h =
        let same : combined ms ≡ o = cc h in
        rw (← same) (accepts_optional-combined ms ∙ Meets-now ms b met)

    legacy-conditions :
        (m : RuleMatch) (o : Option Matcher)
        → build_matcher_legacy u e m ≡ ok o
        → accepts_optional u e o ctx ≡ legacy_conditions u e m ctx
    unfolding build_matcher_legacy accepts
    legacy-conditions m o h =
        let compile = compile_pattern u e in
        let add =
          λ (make : Pattern → Matcher) (read : Reader). Meets-add_pattern_matcher make read in
        Meets-result _ _ o
          (add Matcher.command_pattern command (λ p. refl) compile m.command_pattern _ _
            (add Matcher.content_pattern content (λ p. refl) (new_regex_pattern u e)
              m.content_pattern _ _
              (add Matcher.file_pattern file_path (λ p. refl) compile m.file_pattern _ _
                (add Matcher.branch_pattern branch (λ p. refl) compile m.branch_pattern _ _
                  (add Matcher.repo_pattern repo_root (λ p. refl) compile m.repo_pattern _ _
                    (Meets-simple_conditions m))))))
          h

    advanced-conditions :
        (m : RuleMatch) (o : Option Matcher)
        → build_matcher_advanced u e m ≡ ok o
        → accepts_optional u e o ctx ≡ advanced_conditions u e m ctx
    unfolding build_matcher_advanced accepts
    advanced-conditions m o h =
        let mode = parse_pattern_mode u m.pattern_mode in
        let compile = compile_pattern_with_options u e (options_of m) in
        let regex = compile_content_with_options u e (options_of m) in
        let add = λ (make : Pattern → Matcher) (read : Reader).
          Meets-add_advanced_pattern_matcher make read in
        Meets-result _ _ o
          (add Matcher.command_pattern command (λ p. refl) compile mode m.command_pattern
            m.command_patterns _ _
            (add Matcher.content_pattern content (λ p. refl) regex mode m.content_pattern
              m.content_patterns _ _
              (add Matcher.file_pattern file_path (λ p. refl) compile mode m.file_pattern
                m.file_patterns _ _
                (add Matcher.branch_pattern branch (λ p. refl) compile mode m.branch_pattern
                  m.branch_patterns _ _
                  (add Matcher.repo_pattern repo_root (λ p. refl) compile mode m.repo_pattern
                    m.repo_patterns _ _ (Meets-simple_conditions m))))))
          h

    -- A matcher that `BuildMatcher` returns accepts a context exactly if every condition that the rule
    -- gives holds of it: the conditions that are empty do not count, several patterns take the place of
    -- a single one and hold by the rule's mode, and no condition at all accepts everything. A single
    -- content pattern is a plain regular expression, in which a leading ! does not negate, unless the
    -- rule is case insensitive or has a list of patterns.
    pub build_matcher-satisfies :
        (conditions : Option RuleMatch) (o : Option Matcher)
        → build_matcher u e conditions ≡ ok o
        → accepts_optional u e o ctx ≡ satisfies u e conditions ctx
    unfolding build_matcher satisfies
    build_matcher-satisfies none o h = let same : none ≡ o = cc h in rw (← same) refl
    build_matcher-satisfies (some m) o h = elim (Bool-cases (use_advanced m)) [
      | inl rich ↦ rw rich (advanced-conditions m o (rw rich at h))
      | inr plain ↦ rw plain (legacy-conditions m o (rw plain at h))
    ]
