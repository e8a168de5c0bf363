-- ===== src/Dispatcher/Checking.antt =====
-- Exception checking over all errors of a run.
use klaudiush.Prelude.{ℕ, ◌≡◌, refl, inl, inr, Option, some, List, [], ◌∷◌, Bool-cases}
use klaudiush.Prelude.Unicode.{Unicode}
use klaudiush.Hook.{Context}
use klaudiush.Exceptions.RateLimit.{Zone}
use klaudiush.Exceptions.Engine.{Engine}
use klaudiush.Exceptions.Handler.{Surroundings}
use klaudiush.Dispatcher.Errors.{ValidationError}
use klaudiush.Dispatcher.{
  Checker, is_checking, check_errors, accepts_exceptions, apply_exception_checking,
}
use klaudiush.Dispatcher.Laws.{kept, AllChecked, Runs, check_error-Ends}

module _ (u : Unicode) (zone : Zone) (env : ℕ → Surroundings) (E : Engine) where
  -- A list of errors and a checker come back, with this relation to what went in.
  abbrev pub ListEnds :
      (List ValidationError → Type 0) → Option (List ValidationError × Checker) → Type 0
  ListEnds P o =
      (rs : List ValidationError) × (c : Checker) × (o ≡ some (rs, c))
      × P rs
      × Runs u zone env E c.handler

  all_kept : (hook : Context) (es : List ValidationError) → AllChecked u zone env E hook es es
  all_kept hook [] = tt
  all_kept hook (e ∷ es) = (kept, all_kept hook es)

  check_errors-Ends :
      (hook : Context) (es : List ValidationError) (c : Checker)
      → Runs u zone env E c.handler
      → ListEnds (AllChecked u zone env E hook es) (check_errors u zone env hook es c)
  unfolding check_errors
  check_errors-Ends hook [] c runs = ([], c, refl, tt, runs)
  check_errors-Ends hook (e ∷ es) c runs =
      let (r, b, c', first, checked, runs') = check_error-Ends u zone env E hook e c runs in
      let (rs, c'', rest, all, runs'') = check_errors-Ends hook es c' runs' in
      (r ∷ rs, c'', simp (check_errors, first, rest) refl, (checked, all), runs'')

  -- Exception checking returns, with no fault, one error for each error in their order: the same one,
  -- or, for a token of its code in the command that the policy permits, its warning. The checker's
  -- handler, if it has one, runs the engine of that policy, before and after.
  pub apply_exception_checking-AllChecked :
      (hook : Context) (es : List ValidationError) (c : Checker)
      → Runs u zone env E c.handler
      → ListEnds (AllChecked u zone env E hook es) (apply_exception_checking u zone env hook es c)
  unfolding apply_exception_checking
  apply_exception_checking-AllChecked hook es c runs =
      let unchanged : ListEnds (AllChecked u zone env E hook es) (some (es, c)) =
        (es, c, refl, all_kept hook es, runs) in
      elim (Bool-cases (is_checking c.handler)) [
        | inr off ↦ rw off unchanged
        | inl on ↦ elim (Bool-cases (accepts_exceptions u hook)) [
          | inr other ↦ simp (on, other) unchanged
          | inl counts ↦ simp (on, counts) (check_errors-Ends hook es c runs)
        ]
      ]
