-- ===== src/Dispatcher/Laws.antt =====
-- No blocking error is lost on the way through the dispatcher but for the two reasons that the user
-- can give: an override and a permitted exception token.
use mathlib.Core.Path.{subst}
use klaudiush.Prelude.{
  ℕ, suc, ◌≡◌, refl, ◌∙◌, inl, inr, Bool, true, false, Option, none, some, List, [], ◌∷◌,
  Bool-cases,
}
use klaudiush.Prelude.Bytes.{Str, is_empty}
use klaudiush.Prelude.Unicode.{Unicode}
use klaudiush.Hook.{Context, get_command}
use klaudiush.Exceptions.Config.{is_enabled}
use klaudiush.Exceptions.RateLimit.{Zone}
use klaudiush.Exceptions.Types.{AuditEntry, Token, TokenSource}
use klaudiush.Exceptions.Token.{ok}
use klaudiush.Exceptions.Token.Source.{parse}
use klaudiush.Exceptions.Policy.Permits.{Permits}
use klaudiush.Exceptions.Engine.{Engine}
use klaudiush.Exceptions.Engine.Laws.{Grants}
use klaudiush.Exceptions.Handler.{
  Handler, CheckRequest, CheckResponse, Surroundings, check_exception, to_evaluate_request,
  command_of,
}
use klaudiush.Exceptions.Handler.Laws.{check_exception-Ends}
use klaudiush.Dispatcher.Errors.{ValidationError}
use klaudiush.Dispatcher.{
  Checker, extract_error_code, bypassed_error, request_of, answered, check_with, check_error,
}

module _ (u : Unicode) (zone : Zone) (env : ℕ → Surroundings) (E : Engine) where
  -- The command carries a token for exactly the error's code, which the policy permits.
  pub record Excused (hook : Context) (verr : ValidationError) : Type 0 where
    pub token : Token
    pub source : TokenSource
    pub found : parse E.parser (get_command hook) ≡ ok (some (token, source))
    pub same_code : token.error_code ≡ extract_error_code verr.reference
    pub permitted : Permits u E.matcher token

  -- What exception checking may make of an error: nothing, or the warning of an excused one.
  pub data Checked (hook : Context) (verr : ValidationError) : ValidationError → Type 0 where
    kept : Checked hook verr verr
    excused :
        (resp : CheckResponse) → Excused hook verr → Checked hook verr (bypassed_error verr resp)

  -- The same of two lists, one error for each.
  abbrev pub AllChecked : Context → List ValidationError → List ValidationError → Type 0
  AllChecked hook [] [] = Unit
  AllChecked hook (e ∷ es) (r ∷ rs) = Checked hook e r × AllChecked hook es rs
  AllChecked hook [] (r ∷ rs) = ⊥
  AllChecked hook (e ∷ es) [] = ⊥

  -- A handler, if there is one, runs this engine.
  abbrev pub Runs : Option Handler → Type 0
  Runs none = Unit
  Runs (some h) = h.engine ≡ E

  abbrev pub CheckEnds :
      Context → ValidationError → Option ((ValidationError × Bool) × Checker) → Type 0
  CheckEnds hook verr o =
      (r : ValidationError) × (b : Bool) × (c : Checker) × (o ≡ some ((r, b), c))
      × Checked hook verr r
      × Runs c.handler

  module _ (hook : Context) (verr : ValidationError) where
    abbrev code : Str
    code = extract_error_code verr.reference

    abbrev asked : CheckRequest
    asked = request_of hook verr code

    Excused-Grants :
        (e : Surroundings) (entry : AuditEntry)
        → is_empty code ≡ false
        → Grants u E (to_evaluate_request e asked) entry
        → Excused hook verr
    unfolding to_evaluate_request command_of
    Excused-Grants e entry given g = record {
      token = g.token;
      source = g.source;
      found = g.found;
      same_code = elim g.expected [ inl blank ↦ cc (rw blank at given) | inr same ↦ same ];
      permitted = g.permitted;
    }

    answered-Ends :
        (c : Checker) (h : Handler)
        → h.engine ≡ E
        → is_empty code ≡ false
        → CheckEnds hook verr
            (answered u zone env verr c (check_exception u zone (env c.turn) (some asked) h))
    answered-Ends c h same given =
        let (resp, h', returns, o) = check_exception-Ends u zone (env c.turn) asked h in
        let c' : Checker = record { handler = some h'; turn = suc c.turn } in
        elim (Bool-cases resp.bypassed) [
          | inr refused ↦
              (verr, false, c', simp (returns, refused, answered) refl, kept, o.engine ∙ same)
          | inl passed ↦
              let (entry, g, coded, room, counted) = o.bypass passed in
              let g' =
                subst (λ e. Grants u e (to_evaluate_request (env c.turn) asked) entry) same g in
              (
                bypassed_error verr resp,
                true,
                c',
                simp (returns, passed, answered) refl,
                excused resp (Excused-Grants (env c.turn) entry given g'),
                o.engine ∙ same,
              )
        ]

    CheckEnds-kept : (c : Checker) → Runs c.handler → CheckEnds hook verr (some ((verr, false), c))
    CheckEnds-kept c runs = (verr, false, c, refl, kept, runs)

    check_with-Ends :
        (c : Checker) (o : Option Handler)
        → Runs c.handler
        → Runs o
        → CheckEnds hook verr (check_with u zone env hook verr c o)
    check_with-Ends c none runs runs' = CheckEnds-kept c runs
    check_with-Ends c (some h) runs same = elim (Bool-cases (is_enabled h.config)) [
      | inr off ↦ rw off (CheckEnds-kept c runs)
      | inl on ↦ elim (Bool-cases verr.should_block) [
        | inr warning ↦ simp (on, warning) (CheckEnds-kept c runs)
        | inl blocking ↦ elim (Bool-cases (is_empty code)) [
          | inl blank ↦ simp (on, blocking, blank) (CheckEnds-kept c runs)
          | inr given ↦ simp (on, blocking, given) (answered-Ends c h same given)
        ]
      ]
    ]

    pub check_error-Ends :
        (c : Checker) → Runs c.handler → CheckEnds hook verr (check_error u zone env hook verr c)
    unfolding check_error
    check_error-Ends c runs = check_with-Ends c c.handler runs runs
