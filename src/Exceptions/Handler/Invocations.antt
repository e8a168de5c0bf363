-- ===== src/Exceptions/Handler/Invocations.antt =====
-- The limits over the runs of the program (initExceptionChecker and savePersistentState of
-- cmd/klaudiush/main.go). Each run is a process of its own: it makes a handler, loads the state file,
-- checks, and saves the state.
use mathlib.Core.Path.{subst}
use klaudiush.Prelude.{
  ◌≤◌, ◌≡◌, refl, ap, ◌∙◌, ◌⊎◌, inl, inr, Bool, false, ◌&&◌, Bool-cases, if◌then◌else◌, Option,
  none, some, List, [], ◌∷◌, arith,
}
use klaudiush.Prelude.Bytes.{Str}
use klaudiush.Prelude.Unicode.{Unicode}
use klaudiush.Exceptions.Config.{ExceptionsConfig, is_enabled}
use klaudiush.Exceptions.Token.Source.{ShellResult}
use klaudiush.Exceptions.RateLimit.{
  Time, Zone, IsForward, RateLimitState, RateLimiter, StateFile, missing, parsed, is_disabled,
  new_rate_limiter, load, save,
}
use klaudiush.Exceptions.RateLimit.History.{History, reset_if_expired-IsConsistent}
use klaudiush.Exceptions.RateLimit.Steps.{new_rate_limiter-IsConsistent}
use klaudiush.Exceptions.Handler.{new_handler, load_state, save_state}
use klaudiush.Exceptions.Handler.Limits.{
  Schedule, IsOrdered, last_time, run, IsWithinLimits, IsSound, IsSound-later, IsSound-run,
  within_of,
}

-- One run: whether there is a working directory, when the handler is made and the state loaded, the checks, and what the file system refuses
-- when the state is saved.
pub record Invocation : Type 0 where
  pub has_directory : Bool
  pub started_at : Time
  pub loaded_at : Time
  pub checks : Schedule
  pub mkdir : Option Str
  pub marshal : Option Str
  pub write : Option Str
  pub rename : Option Str

module _ (u : Unicode) (zone : Zone) (config : Option ExceptionsConfig)
    (parse_shell : Str → ShellResult) where
  -- A run with a handler.
  unfoldable pub invoke_handler : Invocation → History → StateFile → History × StateFile
  unfolding new_handler load_state save_state
  invoke_handler i log file =
      let h = load_state zone i.loaded_at file (new_handler zone config parse_shell i.started_at) in
      let (log', h') = run u zone h log i.checks in
      (log', (save_state i.mkdir i.marshal i.write i.rename h' file).1)

  -- The history with the bypasses of the run, and the state file. Where exceptions are switched off or
  -- there is no working directory, there is no handler, and nothing is checked or saved.
  unfoldable pub invoke : Invocation → History → StateFile → History × StateFile
  unfolding invoke_handler
  invoke i log file =
      if is_enabled config && i.has_directory then invoke_handler i log file else (log, file)

  unfoldable pub invoke_all : List Invocation → History → StateFile → History × StateFile
  unfolding invoke
  invoke_all [] log file = (log, file)
  invoke_all (i ∷ is) log file = let (log', file') = invoke i log file in invoke_all is log' file'

-- One run after another, and no clock reading goes back.
abbrev pub IsSequence : Time → List Invocation → Type 0
IsSequence last [] = Unit
IsSequence last (i ∷ is) =
    (last ≤ i.started_at)
    × (i.started_at ≤ i.loaded_at)
    × IsOrdered i.loaded_at i.checks
    × IsSequence (last_time i.loaded_at i.checks) is

last_time-le :
    (last : Time) (checks : Schedule) → IsOrdered last checks → last ≤ last_time last checks
last_time-le last [] ordered = omega arith
last_time-le last ((env, req) ∷ rest) (le, le', ordered) =
    omega (arith, last_time-le env.recorded_at rest ordered)

-- Every state is saved.
abbrev pub IsSaved : List Invocation → Type 0
IsSaved [] = Unit
IsSaved (i ∷ is) =
    (i.mkdir ≡ none) × (i.marshal ≡ none) × (i.write ≡ none) × (i.rename ≡ none) × IsSaved is

module _ (u : Unicode) (zone : Zone) (forward : IsForward zone) (c : ExceptionsConfig)
    (limits : is_disabled c.rate_limit ≡ false) (parse_shell : Str → ShellResult) where
  abbrev limiter_of : RateLimitState → RateLimiter
  limiter_of s = record { state = s; config = c.rate_limit; policy = some c }

  abbrev Sound : RateLimiter → Time → History → Type 0
  Sound = IsSound u zone forward c.rate_limit (some c) limits

  -- The state file agrees with the history.
  abbrev FileIsSound : StateFile → Time → History → Type 0
  FileIsSound file last log =
      ((file ≡ missing) × (log ≡ []))
      ⊎ ((s : RateLimitState) × (file ≡ parsed (some s.hourly_usage) (some s.daily_usage) s)
          × Sound (limiter_of s) last log)

  abbrev fresh : Time → RateLimiter
  fresh start = new_rate_limiter zone c.rate_limit (some c) start

  fresh-IsSound : (start : Time) → Sound (fresh start) start []
  unfolding new_rate_limiter
  fresh-IsSound start = record {
    same_config = refl;
    same_policy = refl;
    consistent = new_rate_limiter-IsConsistent zone forward c.rate_limit (some c) start;
  }

  load-IsSound :
      (file : StateFile) (log : History) (last start now : Time)
      → last ≤ start
      → start ≤ now
      → FileIsSound file last log
      → Sound (load zone now file (fresh start)).1 now log
  unfolding load new_rate_limiter
  load-IsSound file log last start now le le' (inl (none_there, nothing)) =
      rw (none_there, nothing)
        (IsSound-later u zone forward c.rate_limit (some c) limits start now (fresh start) [] le'
          (fresh-IsSound start))
  load-IsSound file log last start now le le' (inr (s, there, sound)) = rw there (record {
    same_config = refl;
    same_policy = refl;
    consistent =
        reset_if_expired-IsConsistent zone forward last now (omega arith) (limiter_of s) log
          sound.consistent;
  })

  limiter-eq :
      (l : RateLimiter) → l.config ≡ c.rate_limit → l.policy ≡ some c → l ≡ limiter_of l.state
  limiter-eq l a b =
      ap (λ o. record { state = l.state; config = o; policy = l.policy }) a
      ∙ ap (λ o. record { state = l.state; config = c.rate_limit; policy = o }) b

  invoke_handler-IsSound :
      (i : Invocation) (file : StateFile) (log : History) (last : Time)
      → last ≤ i.started_at
      → i.started_at ≤ i.loaded_at
      → IsOrdered i.loaded_at i.checks
      → IsSaved (i ∷ [])
      → FileIsSound file last log
      → FileIsSound
          (invoke_handler u zone (some c) parse_shell i log file).1
          (last_time i.loaded_at i.checks)
          (invoke_handler u zone (some c) parse_shell i log file).0
  unfolding invoke_handler load_state save_state new_handler save
  invoke_handler-IsSound i file log last le le' ordered (made, marshaled, written, renamed, done)
        sound =
      let h =
        load_state zone i.loaded_at file (new_handler zone (some c) parse_shell i.started_at) in
      let loaded = load-IsSound file log last i.started_at i.loaded_at le le' sound in
      let s =
        IsSound-run u zone forward c.rate_limit (some c) limits i.loaded_at log h i.checks ordered
          loaded in
      let l = (run u zone h log i.checks).1.rate_limiter in
      inr (
        l.state,
        simp (made, marshaled, written, renamed, save) refl,
        subst (λ r. Sound r (last_time i.loaded_at i.checks) (run u zone h log i.checks).0)
            (limiter-eq l s.same_config s.same_policy) s,
      )

  FileIsSound-later :
      (file : StateFile) (log : History) (last now : Time)
      → last ≤ now
      → FileIsSound file last log
      → FileIsSound file now log
  FileIsSound-later file log last now le (inl nothing) = inl nothing
  FileIsSound-later file log last now le (inr (s, there, sound)) =
      inr (
        s,
        there,
        IsSound-later u zone forward c.rate_limit (some c) limits last now _ log le sound,
      )

  invoke-IsSound :
      (i : Invocation) (file : StateFile) (log : History) (last : Time)
      → last ≤ i.started_at
      → i.started_at ≤ i.loaded_at
      → IsOrdered i.loaded_at i.checks
      → IsSaved (i ∷ [])
      → FileIsSound file last log
      → FileIsSound
          (invoke u zone (some c) parse_shell i log file).1
          (last_time i.loaded_at i.checks)
          (invoke u zone (some c) parse_shell i log file).0
  unfolding invoke
  invoke-IsSound i file log last le le' ordered saved sound =
      elim (Bool-cases (is_enabled (some c) && i.has_directory)) [
        | inl handled ↦
            rw handled (invoke_handler-IsSound i file log last le le' ordered saved sound)
        | inr bare ↦
            let later = last_time-le i.loaded_at i.checks ordered in
            rw bare (FileIsSound-later file log last _ (omega (arith, later)) sound)
      ]

  invoke_all-within :
      (is : List Invocation) (file : StateFile) (log : History) (last : Time)
      → IsSequence last is
      → IsSaved is
      → FileIsSound file last log
      → IsWithinLimits zone c.rate_limit
          (some c)
          (invoke_all u zone (some c) parse_shell is log file).0
  unfolding invoke_all
  invoke_all-within [] file log last ordered saved (inl (none_there, nothing)) = rw nothing (
      within_of u zone forward c.rate_limit (some c) limits last (fresh last) []
        (fresh-IsSound last))
  invoke_all-within [] file log last ordered saved (inr (s, there, sound)) =
      within_of u zone forward c.rate_limit (some c) limits last (limiter_of s) log sound
  invoke_all-within (i ∷ is) file log last (le, le', ordered, rest)
        (made, marshaled, written, renamed, saved) sound =
      invoke_all-within is _ _ (last_time i.loaded_at i.checks) rest saved (
        invoke-IsSound i file log last le le' ordered (made, marshaled, written, renamed, tt) sound)

  -- The limits hold over the runs of the program, each a process that loads what the one before it
  -- saved: from no state file, one run after another with no clock reading that goes back and every
  -- state saved and read back as it was, with rate limiting on, in a time zone in which the start of
  -- the local day never goes back. No hour and no local day holds more bypasses than a limit allows:
  -- the two global limits, and for each error code the two of its policy.
  pub invoke_all-IsWithinLimits :
      (start : Time) (is : List Invocation)
      → IsSequence start is
      → IsSaved is
      → IsWithinLimits zone c.rate_limit
          (some c)
          (invoke_all u zone (some c) parse_shell is [] missing).0
  invoke_all-IsWithinLimits start is ordered saved =
      invoke_all-within is missing [] start ordered saved (inl (refl, refl))
