-- ===== src/Rules/Pattern/Laws.antt =====
-- What a list of patterns matches, in terms of its members.
use klaudiush.Prelude.{
  ◌≡◌, refl, inl, inr, Bool, true, false, Option, some, List, [], ◌∷◌, any, all, arith,
}
use klaudiush.Prelude.Bytes.{Str}
use klaudiush.Prelude.Maps.{is_some}
use klaudiush.Prelude.Unicode.{Unicode}
use klaudiush.Prelude.Result.{Result, Result-cases, ok, err}
use klaudiush.Rules.Pattern.{
  Engines, Pattern, Patterns, MultiPatternMode, any_of, all_of, end, also, multi_pattern, matches,
  matches_any, matches_all, multi_repr, compile_each, compile_multi_pattern,
}

module _ (u : Unicode) (e : Engines) where
  -- The text compiles to a pattern that matches.
  abbrev pub result_matches : Result Pattern → Str → Bool
  result_matches (ok p) s = matches u e p s
  result_matches (err error) s = false

  abbrev pub combine {ℓ} : {A : Type ℓ} → MultiPatternMode → (A → Bool) → List A → Bool
  combine any_of p xs = any p xs
  combine all_of p xs = all p xs

  compile_each-any :
      (compile : Str → Result Pattern) (ps : List Str) (qs : Patterns) (s : Str)
      → compile_each compile ps ≡ ok qs
      → (matches_any u e qs s ≡ any (λ p. result_matches (compile p) s) ps)
        × (matches_all u e qs s ≡ all (λ p. result_matches (compile p) s) ps)
  unfolding compile_each matches
  compile_each-any compile [] end s h = (refl, refl)
  compile_each-any compile [] (also q qs) s h = cc
  compile_each-any compile (p ∷ ps) qs s h = elim (Result-cases (compile p)) [
    | inr (error, failed) ↦ cc (rw failed at h)
    | inl (q, made) ↦ elim (Result-cases (compile_each compile ps)) [
      | inr (error, failed) ↦ cc (rw (made, failed) at h)
      | inl (qs', rest) ↦
          let (each, every) = compile_each-any compile ps qs' s rest in
          let whole : also q qs' ≡ qs = cc (rw (made, rest) at h) in
          rw (← whole, made, each, every) (refl, refl)
    ]
  ]

  combine_single {ℓ} :
      {A : Type ℓ} (mode : MultiPatternMode) (x : A) (p : A → Bool) → combine mode p (x ∷ []) ≡ p x
  combine_single any_of x p = ground arith
  combine_single all_of x p = ground arith

  compile_each_cons :
      (compile : Str → Result Pattern) (p : Str) (ps : List Str) (qs : Patterns)
      → compile_each compile (p ∷ ps) ≡ ok qs
      → (q : Pattern) × (rest : Patterns) × (also q rest ≡ qs)
  unfolding compile_each
  compile_each_cons compile p ps qs h = elim (Result-cases (compile p)) [
    | inr (error, failed) ↦ cc (rw failed at h)
    | inl (q, made) ↦ elim (Result-cases (compile_each compile ps)) [
      | inr (error, failed) ↦ cc (rw (made, failed) at h)
      | inl (rest, made') ↦ (q, rest, cc (rw (made, made') at h))
    ]
  ]

  matches-multi :
      (compile : Str → Result Pattern) (mode : MultiPatternMode) (ps : List Str) (q : Pattern)
      (qs : Patterns) (repr s : Str)
      → compile_each compile ps ≡ ok (also q qs)
      → matches u e (multi_pattern (also q qs) mode repr) s
        ≡ combine mode (λ p. result_matches (compile p) s) ps
  unfolding matches
  matches-multi compile any_of ps q qs repr s h = (compile_each-any compile ps (also q qs) s h).0
  matches-multi compile all_of ps q qs repr s h = (compile_each-any compile ps (also q qs) s h).1

  -- A compiled list of patterns matches a text exactly if any of them does, or all of them do, as
  -- the mode says.
  pub compile_multi_pattern-matches :
      (compile : Str → Result Pattern) (mode : MultiPatternMode) (ps : List Str) (q : Pattern)
      (s : Str)
      → compile_multi_pattern compile mode ps ≡ ok (some q)
      → matches u e q s ≡ combine mode (λ p. result_matches (compile p) s) ps
  unfolding compile_multi_pattern matches
  compile_multi_pattern-matches compile mode [] q s h = cc
  compile_multi_pattern-matches compile mode (p ∷ []) q s h = elim (Result-cases (compile p)) [
    | inr (error, failed) ↦ cc (rw failed at h)
    | inl (q', made) ↦
        let same : q' ≡ q = cc (rw made at h) in rw (← same, combine_single mode p _, made) refl
  ]
  compile_multi_pattern-matches compile mode (p ∷ p' ∷ ps) q s h =
      let all_ps = p ∷ p' ∷ ps in
      elim (Result-cases (compile_each compile all_ps)) [
        | inr (error, failed) ↦ cc (rw failed at h)
        | inl (qs, made) ↦
            let same : multi_pattern qs mode (multi_repr mode all_ps) ≡ q = cc (rw made at h) in
            let (first, rest, shape) = compile_each_cons compile p (p' ∷ ps) qs made in
            rw (← same, ← shape)
              (matches-multi compile mode all_ps first rest _ s (rw (← shape) at made))
      ]

  -- With a pattern given there is a pattern.
  pub compile_multi_pattern_some :
      (compile : Str → Result Pattern) (mode : MultiPatternMode) (p : Str) (ps : List Str)
      (o : Option Pattern)
      → compile_multi_pattern compile mode (p ∷ ps) ≡ ok o
      → is_some o ≡ true
  unfolding compile_multi_pattern
  compile_multi_pattern_some compile mode p [] o h = elim (Result-cases (compile p)) [
    | inr (error, failed) ↦ cc (rw failed at h)
    | inl (q, made) ↦ let same : some q ≡ o = cc (rw made at h) in rw (← same) refl
  ]
  compile_multi_pattern_some compile mode p (q ∷ ps) o h =
      elim (Result-cases (compile_each compile (p ∷ q ∷ ps))) [
        | inr (error, failed) ↦ cc (rw failed at h)
        | inl (qs, made) ↦
            let same : some (multi_pattern qs mode (multi_repr mode (p ∷ q ∷ ps))) ≡ o =
              cc (rw made at h) in
            rw (← same) refl
      ]
