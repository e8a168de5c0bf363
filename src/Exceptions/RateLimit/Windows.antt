-- ===== src/Exceptions/RateLimit/Windows.antt =====
-- One counter with its window, against the list of the times at which it was used. `win` takes a
-- time to the start of its window; hours and days are two instances.
use klaudiush.Prelude.{
  ℕ, ◌+◌, ◌≤◌, ◌<◌, ◌≡◌, refl, sym, ◌∙◌, ◌⊎◌, false, Bool-cases, ltb→lt, ==_iff, inl, inr, List, [],
  ◌∷◌, ltb, ◌==◌, length, filter, All, arith, if◌then◌else◌,
}
use mathlib.Core.Path.{subst}
use klaudiush.Prelude.Int.{ℤ, pos_part}
use klaudiush.Exceptions.RateLimit.{Time, exceeded}

-- A limit that is not positive is no limit.
abbrev pub Within : ℤ → ℕ → Type 0
Within limit n = (pos_part limit ≡ 0) ⊎ (n ≤ pos_part limit)

abbrev pub Below : ℤ → ℕ → Type 0
Below limit n = (pos_part limit ≡ 0) ⊎ (n < pos_part limit)

pub Below-of_exceeded : (limit : ℤ) (n : ℕ) → exceeded limit n ≡ false → Below limit n
unfolding exceeded
Below-of_exceeded (ℤ.pos m) n h = ground arith
Below-of_exceeded (ℤ.negsuc m) n h = inl refl

module _ (win : Time → Time) where
  -- The uses in the window that starts at `w`.
  abbrev pub count_in : Time → List Time → ℕ
  count_in w uses = length (filter (λ t. win t == w) uses)

  -- The window and the counter after the reset of an expired window.
  abbrev pub roll_start : Time → Time → Time
  roll_start now start = if ltb start (win now) then win now else start

  abbrev pub roll_count : Time → Time → ℕ → ℕ
  roll_count now start count = if ltb start (win now) then 0 else count

  pub record Tracks (limit : ℤ) (last : Time) (uses : List Time) (start : Time) (count : ℕ)
      : Type 0 where
    pub counted : count ≡ count_in start uses
    pub begun : start ≤ win last
    pub behind : All (λ t. win t ≤ start) uses
    pub within : (w : Time) → Within limit (count_in w uses)

  count_in_later :
      (start w : Time) (uses : List Time)
      → All (λ t. win t ≤ start) uses
      → start < w
      → count_in w uses ≡ 0
  count_in_later start w [] h lt = omega arith
  count_in_later start w (t ∷ uses) (p, h) lt = ground (arith, count_in_later start w uses h lt)

  All-weaken :
      (start later : Time) (uses : List Time)
      → All (λ t. win t ≤ start) uses
      → start ≤ later
      → All (λ t. win t ≤ later) uses
  All-weaken start later [] h le = tt
  All-weaken start later (t ∷ uses) (p, h) le = (omega arith, All-weaken start later uses h le)

  module _ (mono : (a b : Time) → a ≤ b → win a ≤ win b) (limit : ℤ) where
    counted_roll :
        (last now : Time) (uses : List Time) (start : Time) (count : ℕ)
        → Tracks limit last uses start count
        → roll_count now start count ≡ count_in (roll_start now start) uses
    counted_roll last now uses start count t = elim (Bool-cases (ltb start (win now))) [
      | inl later ↦ rw later (sym (count_in_later start (win now) uses t.behind (ltb→lt _ _ later)))
      | inr same ↦ rw same t.counted
    ]

    pub Tracks-roll :
        (last now : Time) (uses : List Time) (start : Time) (count : ℕ)
        → last ≤ now
        → Tracks limit last uses start count
        → Tracks limit now uses (roll_start now start) (roll_count now start count)
    Tracks-roll last now uses start count le t = record {
      counted = counted_roll last now uses start count t;
      begun = ground (arith, mono last now le, t.begun);
      behind = All-weaken start (roll_start now start) uses t.behind (ground arith);
      within = t.within;
    }

    pub roll_start-eq :
        (last now : Time) (uses : List Time) (start : Time) (count : ℕ)
        → last ≤ now
        → Tracks limit last uses start count
        → roll_start now start ≡ win now
    roll_start-eq last now uses start count le t = ground (arith, mono last now le, t.begun)

    pub Tracks-later :
        (last now : Time) (uses : List Time) (start : Time) (count : ℕ)
        → last ≤ now
        → Tracks limit last uses start count
        → Tracks limit now uses start count
    Tracks-later last now uses start count le t = record {
      counted = t.counted;
      begun = omega (arith, mono last now le, t.begun);
      behind = t.behind;
      within = t.within;
    }

    -- One more use, in the current window and below the limit.
    pub Tracks-use :
        (now : Time) (uses : List Time) (start : Time) (count : ℕ)
        → start ≡ win now
        → Tracks limit now uses start count
        → Below limit count
        → Tracks limit now (now ∷ uses) start (count + 1)
    Tracks-use now uses start count e t b = record {
      counted = ground (arith, t.counted);
      begun = omega arith;
      behind = (omega arith, t.behind);
      within = λ w. elim (Bool-cases (win now == w)) [
        | inl here ↦
            let same = subst (λ v. count ≡ count_in v uses) (e ∙ (==_iff _ _).0 here) t.counted in
            rw here (omega (arith, same, b))
        | inr elsewhere ↦ rw elsewhere (t.within w)
      ];
    }

pub Tracks-fresh :
    (win : Time → Time) (limit : ℤ) (now : Time) → Tracks win limit now [] (win now) 0
Tracks-fresh win limit now = record {
  counted = refl;
  begun = omega arith;
  behind = tt;
  within = λ w. inr (omega arith);
}

pub Below-roll :
    (win : Time → Time) (limit : ℤ) (now start : Time) (count : ℕ)
    → Below limit count
    → Below limit (roll_count win now start count)
Below-roll win limit now start count b = ground (arith, b)
