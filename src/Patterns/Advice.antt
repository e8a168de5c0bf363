-- ===== src/Patterns/Advice.antt =====
-- The hints of the advisor: how many there are, and what they are about.
use mathlib.Core.List.{Mem, mem-cons_self, mem-cons_of_mem, Permᴰ}
use mathlib.Core.List.Permᴰ
use klaudiush.Prelude.{
  ℕ, suc, ◌+◌, ◌≡◌, refl, inl, inr, Bool, true, ◌&&◌, ◌||◌, List, [], ◌∷◌, ◌++◌, arith, length,
  length-append, filter, map, All, Bool-cases,
}
use klaudiush.Prelude.Bytes.{Str, str_eq}
use klaudiush.Prelude.Bytes.Laws.{str_eq_iff}
use klaudiush.Prelude.Int.{pos, ◌+ℤ◌, ◌≤ℤ◌, leb_ℤ, int_laws}
use klaudiush.Prelude.Sort.{sort}
use klaudiush.Prelude.Sort.Laws.{All-sort, All-map}
use klaudiush.Patterns.{FailurePattern, Patterns, FilePatternStore}
use klaudiush.Patterns.Merge.{merge_patterns, get_follow_ups}
use klaudiush.Patterns.Advisor.{
  Advisor, format_warning, seen_more, is_full, add_warnings, advise_from, advise,
}

module _ {ℓ κ} {A : Type ℓ} where
  All-append : (P : A → Type κ) (xs : List A) (y : A) → All P xs → P y → All P (xs ++ y ∷ [])
  All-append P [] y a p = (p, tt)
  All-append P (x ∷ xs) y (q, a) p = (q, All-append P xs y a p)

  All-filter :
      (P : A → Type κ) (p : A → Bool) (xs : List A)
      → All P xs
      → All (λ x. P x × (p x ≡ true)) (filter p xs)
  All-filter P p [] a = tt
  All-filter P p (x ∷ xs) (q, a) = elim (Bool-cases (p x)) [
    | inl passes ↦ rw passes ((q, passes), All-filter P p xs a)
    | inr fails ↦ rw fails (All-filter P p xs a)
  ]

All-Mem {ℓ} : {A : Type ℓ} (xs : List A) → All (λ c. Mem c xs) xs
All-Mem [] = tt
All-Mem (x ∷ xs) =
    (mem-cons_self, All-map (λ a b. true) _ _ (λ c m. mem-cons_of_mem x m) xs (All-Mem xs))

module _ (a : Advisor) (visit : ℕ → Patterns) where
  add_warnings-le :
      (i : ℕ) (ps : List FailurePattern) (ws : List Str)
      → pos (length ws) ≤ℤ a.max_total
      → pos (length (add_warnings a visit i ps ws)) ≤ℤ a.max_total
  unfolding add_warnings
  add_warnings-le i [] ws h = h
  add_warnings-le i (p ∷ ps) ws h =
      elim (Bool-cases (leb_ℤ a.max_per_error (pos i) || is_full a visit ws)) [
        | inl stop ↦ rw stop h
        | inr go ↦ rw go (
            add_warnings-le (suc i) ps (ws ++ format_warning p ∷ [])
              (ground (arith, go, length-append ws (format_warning p ∷ []))))
      ]

  advise_from-le :
      (i : ℕ) (rest ws : List Str)
      → pos (length ws) ≤ℤ a.max_total
      → pos (length (advise_from a visit i rest ws)) ≤ℤ a.max_total
  unfolding advise_from
  advise_from-le i [] ws h = h
  advise_from-le i (code ∷ rest) ws h = elim (Bool-cases (is_full a visit ws)) [
    | inl full ↦ rw full h
    | inr more ↦ rw more (advise_from-le (suc i) rest _ (add_warnings-le 0 _ ws h))
  ]

  -- The warnings that the follow-ups of one code add.
  add_warnings_per_error :
      (i : ℕ) (ps : List FailurePattern) (ws : List Str)
      → pos i ≤ℤ a.max_per_error
      → pos (length (add_warnings a visit i ps ws) + i) ≤ℤ a.max_per_error +ℤ pos (length ws)
  unfolding add_warnings
  add_warnings_per_error i [] ws h = omega int_laws
  add_warnings_per_error i (p ∷ ps) ws h =
      elim (Bool-cases (leb_ℤ a.max_per_error (pos i) || is_full a visit ws)) [
        | inl stop ↦ rw stop (omega int_laws)
        | inr go ↦
            let more =
              add_warnings_per_error (suc i) ps (ws ++ format_warning p ∷ [])
                (ground (arith, go)) in
            rw go (omega (int_laws, more, length-append ws (format_warning p ∷ [])))
      ]

  one_code :
      (code : Str)
      → pos 0 ≤ℤ a.max_per_error
      → pos (length (advise a visit (code ∷ []))) ≤ℤ a.max_per_error
  unfolding advise
  one_code code h = elim (Bool-cases (is_full a visit [])) [
    | inl full ↦ rw full h
    | inr more ↦
        let found = sort seen_more (get_follow_ups (visit 0) code a.min_count) in
        rw more (omega (int_laws, add_warnings_per_error 0 found [] h))
  ]

  module _ (s : FilePatternStore) (visited : (i : ℕ) → Permᴰ (visit i) (merge_patterns s))
      (error_codes : List Str) where
    -- A pattern of the store, with its merged count.
    abbrev pub IsKnown : FailurePattern → Type 0
    IsKnown p = (key : Str) × Mem (key, p) (merge_patterns s)

    -- A warning is about a sequence of the store that was seen often enough and starts with one of
    -- the codes.
    abbrev pub IsHint : Str → Type 0
    IsHint warning =
        (p : FailurePattern) × IsKnown p
        × (warning ≡ format_warning p)
        × Mem p.source_code error_codes
        × (leb_ℤ a.min_count (pos p.count) ≡ true)

    abbrev Fits : Str → FailurePattern → Type 0
    Fits code p = IsKnown p × (p.source_code ≡ code) × (leb_ℤ a.min_count (pos p.count) ≡ true)

    All-IsKnown :
        (order : Patterns)
        → All (λ e. Mem e (merge_patterns s)) order
        → All IsKnown (map (λ e. e.1) order)
    All-IsKnown [] ms = tt
    All-IsKnown ((key, p) ∷ order) (m, ms) = ((key, m), All-IsKnown order ms)

    follow_ups-Fit :
        (i : ℕ) (code : Str) → All (Fits code) (get_follow_ups (visit i) code a.min_count)
    unfolding get_follow_ups
    follow_ups-Fit i code =
        let known = All-IsKnown (visit i) (
          All-map (λ x y. true) _ _ (λ e m. Permᴰ.mem (visited i) m) (visit i)
            (All-Mem (visit i))) in
        All-map (λ x y. true) _ (Fits code)
          (λ p h.
            (h.0, (str_eq_iff p.source_code code).0 (ground (arith, h.1)), ground (arith, h.1)))
          _
          (All-filter IsKnown (λ p. str_eq p.source_code code && leb_ℤ a.min_count (pos p.count))
            (map (λ e. e.1) (visit i)) known)

    add_warnings-IsHint :
        (code : Str)
        → Mem code error_codes
        → (i : ℕ) (ps : List FailurePattern) (ws : List Str) → All (Fits code) ps
        → All IsHint ws
        → All IsHint (add_warnings a visit i ps ws)
    unfolding add_warnings
    add_warnings-IsHint code m i [] ws fit h = h
    add_warnings-IsHint code m i (p ∷ ps) ws ((known, e, often), fit) h =
        elim (Bool-cases (leb_ℤ a.max_per_error (pos i) || is_full a visit ws)) [
          | inl stop ↦ rw stop h
          | inr go ↦ rw go (
              add_warnings-IsHint code m (suc i) ps (ws ++ format_warning p ∷ []) fit
                (All-append IsHint ws (format_warning p) h (p, known, refl, rw e m, often)))
        ]

    advise_from-IsHint :
        (i : ℕ) (rest ws : List Str)
        → All (λ c. Mem c error_codes) rest
        → All IsHint ws
        → All IsHint (advise_from a visit i rest ws)
    unfolding advise_from
    advise_from-IsHint i [] ws ms h = h
    advise_from-IsHint i (code ∷ rest) ws (m, ms) h = elim (Bool-cases (is_full a visit ws)) [
      | inl full ↦ rw full h
      | inr more ↦
          let found = get_follow_ups (visit i) code a.min_count in
          rw more (
            advise_from-IsHint (suc i) rest (add_warnings a visit 0 (sort seen_more found) ws) ms (
              add_warnings-IsHint code m 0 (sort seen_more found) ws
                (All-sort seen_more (Fits code) found (follow_ups-Fit i code)) h))
    ]

    -- In whatever order each merged map is visited: `Advise` gives no more warnings than the total that
    -- is allowed, and no more than are allowed for one code if there is one code. Each is about a
    -- pattern of the store that starts with one of the codes and was seen, in both files together, at
    -- least the least number of times. The two limits are not negative.
    pub advise-IsHint :
        pos 0 ≤ℤ a.max_total
        → pos 0 ≤ℤ a.max_per_error
        → (pos (length (advise a visit error_codes)) ≤ℤ a.max_total)
          × ((code : Str) → pos (length (advise a visit (code ∷ []))) ≤ℤ a.max_per_error)
          × All IsHint (advise a visit error_codes)
    unfolding advise
    advise-IsHint total per_error = (
      advise_from-le 0 error_codes [] total,
      λ code. one_code code per_error,
      advise_from-IsHint 0 error_codes [] (All-Mem error_codes) tt,
    )
