-- ===== src/Dispatcher/Executor.antt =====
-- internal/dispatcher/executor.go: validators one after another, or at once. `poll i` tells whether
-- the i-th look at the context finds it cancelled. The three worker pools only bound how many
-- goroutines run at once; every completion order that they admit is a run below.
pub mod Laws
use klaudiush.Prelude.{ℕ, suc, ◌≡◌, Bool, true, false, not, List, [], ◌∷◌, ◌++◌, if◌then◌else◌}
use klaudiush.Hook.{Context}
use klaudiush.Validator.{Validator}
use klaudiush.Dispatcher.Errors.{ValidationError, to_validation_error}

-- What one validator adds to the errors.
unfoldable pub failure_of : Context → Validator → List ValidationError
failure_of hook v =
    let result = v.validate hook in
    if not result.passed then to_validation_error v result ∷ [] else []

-- `SequentialExecutor.Execute` from the i-th look on.
unfoldable pub execute_from : (ℕ → Bool) → ℕ → Context → List Validator → List ValidationError
execute_from poll i hook [] = []
execute_from poll i hook (v ∷ vs) =
    if poll i then [] else failure_of hook v ++ execute_from poll (suc i) hook vs

unfoldable pub execute_sequential : (ℕ → Bool) → Context → List Validator → List ValidationError
unfolding execute_from
execute_sequential poll hook vs = execute_from poll 0 hook vs

-- `ParallelExecutor.Execute` while its goroutines run: the validators that have not finished, and the
-- errors appended so far.
pub record Pool : Type 0 where
  pub waiting : List Validator
  pub results : List ValidationError

-- One goroutine finishes: it appends its error, if any, under the lock.
pub data Step (hook : Context) : Pool → Pool → Type 0 where
  finish :
      (before : List Validator) (v : Validator) (after : List Validator)
      (results : List ValidationError)
      → Step hook
          (record { waiting = before ++ v ∷ after; results = results })
          (record { waiting = before ++ after; results = results ++ failure_of hook v })

-- Goroutines finish in some order.
pub data Steps (hook : Context) : Pool → Pool → Type 0 where
  done : (p : Pool) → Steps hook p p
  step : {p q r : Pool} → Step hook p q → Steps hook q r → Steps hook p r

-- A run to the end with no cancellation, which `wg.Wait` waits for. One validator alone runs in the
-- caller, with the same result.
abbrev pub ParallelRun : Context → List Validator → List ValidationError → Type 0
ParallelRun hook vs results =
    Steps hook (record { waiting = vs; results = [] }) (record { waiting = []; results = results })
