-- ===== src/Dispatcher/Executor/Laws.antt =====
-- The parallel executor against the sequential one.
use mathlib.Core.List.{Perm, append_assoc, append-nil, perm_append_comm}
use mathlib.Core.List.Perm
use mathlib.Core.Path.{subst}
use klaudiush.Prelude.{ℕ, suc, ◌≡◌, refl, sym, ap, false, List, [], ◌∷◌, ◌++◌}
use klaudiush.Hook.{Context}
use klaudiush.Validator.{Validator}
use klaudiush.Dispatcher.Errors.{ValidationError}
use klaudiush.Dispatcher.Executor.{
  failure_of, execute_from, execute_sequential, Pool, Step, finish, Steps, done, step, ParallelRun,
}

swap_blocks {ℓ} : {A : Type ℓ} (x y z : List A) → Perm (x ++ (y ++ z)) (y ++ (x ++ z))
swap_blocks x y z =
    subst (λ l. Perm l (y ++ (x ++ z))) (append_assoc x y z)
      (subst (λ l. Perm ((x ++ y) ++ z) l) (append_assoc y x z)
        (Perm.append_right z (perm_append_comm x y)))

module _ (hook : Context) where
  failures : List Validator → List ValidationError
  failures [] = []
  failures (v ∷ vs) = failure_of hook v ++ failures vs

  failures_middle :
      (before : List Validator) (v : Validator) (after : List Validator)
      → Perm (failure_of hook v ++ failures (before ++ after)) (failures (before ++ v ∷ after))
  unfolding failures
  failures_middle [] v after = Perm.rfl
  failures_middle (w ∷ before) v after =
      Perm.trans (swap_blocks (failure_of hook v) (failure_of hook w) (failures (before ++ after)))
        (Perm.append_left (failure_of hook w) (failures_middle before v after))

  -- The errors that a pool has and those that it will have.
  abbrev total : Pool → List ValidationError
  total p = p.results ++ failures p.waiting

  Step-total : {p q : Pool} → Step hook p q → Perm (total q) (total p)
  Step-total (finish before v after results) =
      subst (λ l. Perm l (results ++ failures (before ++ v ∷ after)))
        (sym (append_assoc results (failure_of hook v) (failures (before ++ after))))
        (Perm.append_left results (failures_middle before v after))

  Steps-total : {p q : Pool} → Steps hook p q → Perm (total q) (total p)
  Steps-total (done p) = Perm.rfl
  Steps-total (step s rest) = Perm.trans (Steps-total rest) (Step-total s)

  execute_from-failures :
      (i : ℕ) (vs : List Validator) → execute_from (λ i. false) i hook vs ≡ failures vs
  unfolding execute_from failures
  execute_from-failures i [] = refl
  execute_from-failures i (v ∷ vs) =
      ap (◌++◌ (failure_of hook v)) (execute_from-failures (suc i) vs)

  -- With no cancellation, whatever the order in which the goroutines finish, the parallel executor
  -- returns the errors of the sequential one in some order.
  pub ParallelRun-execute_sequential :
      (vs : List Validator) (results : List ValidationError)
      → ParallelRun hook vs results
      → Perm results (execute_sequential (λ i. false) hook vs)
  unfolding execute_sequential failures
  ParallelRun-execute_sequential vs results run =
      rw (execute_from-failures 0 vs)
        (subst (λ l. Perm l (failures vs)) (append-nil results) (Steps-total run))
