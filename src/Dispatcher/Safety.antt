-- ===== src/Dispatcher/Safety.antt =====
-- No blocking error is lost on the way through the dispatcher but for the two reasons that the user
-- can give: an override and a permitted exception token.
use klaudiush.Prelude.{
  ℕ, ◌≡◌, refl, ◌⊎◌, inl, inr, true, false, not, ◌||◌, Option, none, some, List, [], ◌∷◌, ◌++◌,
  filter, All, arith, Bool-cases,
}
use klaudiush.Prelude.Bytes.{Str}
use klaudiush.Prelude.Maps.{get_or}
use klaudiush.Prelude.Unicode.{Unicode}
use klaudiush.Hook.{Context, get_command}
use klaudiush.Exceptions.RateLimit.{Zone}
use klaudiush.Exceptions.Engine.{Engine}
use klaudiush.Exceptions.Handler.{Surroundings}
use klaudiush.Overrides.{OverridesConfig}
use klaudiush.Validator.{Validator, find_validators}
use klaudiush.Dispatcher.Errors.{ValidationError}
use klaudiush.Dispatcher.{
  Checker, Dispatcher, FileWrite, is_suppressed, apply_overrides, should_block, synthetic_context,
  run_found, run_validators, validate_writes, validate_parsed, validate_bash_file_writes,
  checks_writes, dispatch,
}
use klaudiush.Dispatcher.Laws.{Excused, kept, excused, AllChecked, Runs}
use klaudiush.Dispatcher.Checking.{ListEnds, apply_exception_checking-AllChecked}

module _ (u : Unicode) (zone : Zone) (env : ℕ → Surroundings) (E : Engine) where
  module _ (parse_time : Str → Option ℕ) (now : ℕ) (file_writes : Str → Option (List FileWrite))
      (d : Dispatcher) where
    -- The errors that the validators for a hook report.
    abbrev pub reported : Context → List Validator → List ValidationError
    reported hook [] = []
    reported hook (v ∷ vs) = d.execute hook (v ∷ vs)

    -- An error may be missing among the blocking ones: it never blocked, its code is switched off, or
    -- the command excuses it.
    abbrev pub MayPass : Context → ValidationError → Type 0
    MayPass hook verr =
        (verr.should_block ≡ false)
        ⊎ (is_suppressed parse_time now d.overrides verr ≡ true)
        ⊎ Excused u zone env E hook verr

    passes_checked :
        (hook : Context) (es rs : List ValidationError)
        → AllChecked u zone env E hook es rs
        → should_block rs ≡ false
        → All (MayPass hook) es
    unfolding should_block
    passes_checked hook [] [] a h = tt
    passes_checked hook [] (_ ∷ rs) a h = elim a [ ]
    passes_checked hook (e ∷ es) [] a h = elim a [ ]
    passes_checked hook (e ∷ es) (_ ∷ rs) (kept, a) h =
        (inl (ground (arith, h)), passes_checked hook es rs a (ground (arith, h)))
    passes_checked hook (e ∷ es) (_ ∷ rs) (excused resp x, a) h =
        (inr (inr x), passes_checked hook es rs a (ground (arith, h)))

    passes_filtered :
        (hook : Context) (es : List ValidationError)
        → All
            (MayPass hook)
            (filter (λ verr. not (is_suppressed parse_time now d.overrides verr)) es)
        → All (MayPass hook) es
    passes_filtered hook [] a = tt
    passes_filtered hook (e ∷ es) a =
        elim (Bool-cases (is_suppressed parse_time now d.overrides e)) [
          | inl off ↦ (inr (inl off), passes_filtered hook es (rw off at a))
          | inr on ↦ let (first, rest) = rw on at a in (first, passes_filtered hook es rest)
        ]

    -- If nothing blocks, every reported error may pass.
    abbrev Harmless : Context → List ValidationError → List ValidationError → Type 0
    Harmless hook es rs = should_block rs ≡ false → All (MayPass hook) es

    overridden : List ValidationError → List ValidationError
    overridden es = apply_overrides parse_time now d.overrides es

    passes_overridden :
        (hook : Context) (o : Option OverridesConfig) (es : List ValidationError)
        → d.overrides ≡ o
        → All (MayPass hook) (apply_overrides parse_time now o es)
        → All (MayPass hook) es
    unfolding apply_overrides
    passes_overridden hook none es e a = a
    passes_overridden hook (some o) es e a = passes_filtered hook es (rw (← e) at a)

    run_found-Ends :
        (hook : Context) (vs : List Validator) (c : Checker)
        → Runs u zone env E c.handler
        → ListEnds u zone env E
            (Harmless hook (reported hook vs))
            (run_found u zone env parse_time now file_writes d hook vs c)
    run_found-Ends hook [] c runs = ([], c, refl, λ h. tt, runs)
    run_found-Ends hook (v ∷ vs) c runs =
        let es = d.execute hook (v ∷ vs) in
        let (rs, c', returns, checked, runs') =
          apply_exception_checking-AllChecked u zone env E hook
            (apply_overrides parse_time now d.overrides es) c runs in
        (
          rs,
          c',
          returns,
          λ quiet.
              passes_overridden hook d.overrides es refl (passes_checked hook _ rs checked quiet),
          runs',
        )

    run_validators-Ends :
        (hook : Context) (c : Checker)
        → Runs u zone env E c.handler
        → ListEnds u zone env E
            (Harmless hook (reported hook (find_validators hook d.registry)))
            (run_validators u zone env parse_time now file_writes d hook c)
    unfolding run_validators
    run_validators-Ends hook c runs = run_found-Ends hook (find_validators hook d.registry) c runs

    -- Every file write of a shell command is checked like a write of its own.
    abbrev WritesHarmless : Context → List FileWrite → List ValidationError → Type 0
    WritesHarmless bash fws rs =
        should_block rs ≡ false
        → All
            (λ fw.
              let hook = synthetic_context bash fw in
              All (MayPass hook) (reported hook (find_validators hook d.registry)))
            fws

    should_block-append :
        (xs ys : List ValidationError)
        → should_block (xs ++ ys) ≡ (should_block xs || should_block ys)
    unfolding should_block
    should_block-append [] ys = refl
    should_block-append (x ∷ xs) ys = ground (arith, should_block-append xs ys)

    validate_writes-Ends :
        (bash : Context) (fws : List FileWrite) (c : Checker)
        → Runs u zone env E c.handler
        → ListEnds u zone env E
            (WritesHarmless bash fws)
            (validate_writes u zone env parse_time now file_writes d bash fws c)
    unfolding validate_writes
    validate_writes-Ends bash [] c runs = ([], c, refl, λ h. tt, runs)
    validate_writes-Ends bash (fw ∷ fws) c runs =
        let (rs, c', first, harmless, runs') =
          run_validators-Ends (synthetic_context bash fw) c runs in
        let (rs', c'', rest, others, runs'') = validate_writes-Ends bash fws c' runs' in
        (
          rs ++ rs',
          c'',
          simp (validate_writes, first, rest) refl,
          λ quiet. (
            harmless (ground (arith, quiet, should_block-append rs rs')),
            others (ground (arith, quiet, should_block-append rs rs')),
          ),
          runs'',
        )

    validate_parsed-Ends :
        (bash : Context) (o : Option (List FileWrite)) (c : Checker)
        → Runs u zone env E c.handler
        → ListEnds u zone env E
            (WritesHarmless bash (get_or o []))
            (validate_parsed u zone env parse_time now file_writes d bash o c)
    validate_parsed-Ends bash none c runs = ([], c, refl, λ h. tt, runs)
    validate_parsed-Ends bash (some fws) c runs = validate_writes-Ends bash fws c runs

    -- `Dispatch` returns, with no fault. If none of the errors that it returns blocks, then each error
    -- that a validator for the hook reported was no blocking one, or has a code that the overrides
    -- switch off, or is excused: the hook's command carries a token for exactly its code, which the
    -- policy permits. For a shell command on a tool event the same holds of each file that the command
    -- writes. All for a checker whose handler, if it has one, runs the engine of that policy.
    pub dispatch-MayPass :
        (hook : Context) (c : Checker)
        → Runs u zone env E c.handler
        → (rs : List ValidationError) × (c' : Checker) × (dispatch u zone env parse_time now
              file_writes d hook c
            ≡ some (rs, c'))
          × (should_block rs ≡ false
              → All (MayPass hook) (reported hook (find_validators hook d.registry))
                × (checks_writes hook ≡ true
                    → All
                        (λ fw.
                          let write = synthetic_context hook fw in
                          All (MayPass write) (reported write (find_validators write d.registry)))
                        (get_or (file_writes (get_command hook)) [])))
    unfolding dispatch validate_bash_file_writes
    dispatch-MayPass hook c runs =
        let (rs, c', first, harmless, runs') = run_validators-Ends hook c runs in
        elim (Bool-cases (checks_writes hook)) [
          | inr other ↦ (
            rs,
            c',
            simp (dispatch, first, other) refl,
            λ quiet. (harmless quiet, λ writes. absurd (cc (rw other at writes))),
          )
          | inl shell ↦
              let (rs', c'', rest, others, runs'') =
                validate_parsed-Ends hook (file_writes (get_command hook)) c' runs' in
              (
                rs ++ rs',
                c'',
                simp (dispatch, validate_bash_file_writes, first, shell, rest) refl,
                λ quiet. (
                  harmless (ground (arith, quiet, should_block-append rs rs')),
                  λ writes. others (ground (arith, quiet, should_block-append rs rs')),
                ),
              )
        ]
