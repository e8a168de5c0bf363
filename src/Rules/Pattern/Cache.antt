-- ===== src/Rules/Pattern/Cache.antt =====
-- `PatternCache` of internal/rules/pattern.go. The lock makes each method atomic; the second look
-- behind the write lock finds what the first one found.
use klaudiush.Prelude.{
  ◌≡◌, refl, sym, inl, inr, Option-cases, Bool-cases, Option, none, some, List, [], arith,
}
use klaudiush.Prelude.Bytes.{Str, str_eq}
use klaudiush.Prelude.Bytes.Laws.{str_eq_iff}
use klaudiush.Prelude.Maps.{lookup, insert, lookup-insert}
use klaudiush.Prelude.Unicode.{Unicode}
use klaudiush.Prelude.Result.{Result, ok, err}
use klaudiush.Rules.Pattern.{Engines, Pattern, compile_pattern}

pub record PatternCache : Type 0 where
  pub patterns : List (Str × Pattern)
  pub errors : List (Str × Str)

unfoldable pub new_pattern_cache : PatternCache
new_pattern_cache = record { patterns = []; errors = [] }

module _ (u : Unicode) (e : Engines) where
  abbrev compiled : Str → PatternCache → Result Pattern → Result Pattern × PatternCache
  compiled s c (err error) = (err error, record c { errors = insert s error c.errors })
  compiled s c (ok p) = (ok p, record c { patterns = insert s p c.patterns })

  abbrev unknown_pattern : Str → PatternCache → Option Str → Result Pattern × PatternCache
  unknown_pattern s c (some error) = (err error, c)
  unknown_pattern s c none = compiled s c (compile_pattern u e s)

  abbrev looked_up : Str → PatternCache → Option Pattern → Result Pattern × PatternCache
  looked_up s c (some p) = (ok p, c)
  looked_up s c none = unknown_pattern s c (lookup s c.errors)

  unfoldable pub get_pattern : Str → PatternCache → Result Pattern × PatternCache
  get_pattern s c = looked_up s c (lookup s c.patterns)

  -- What the cache holds is what compiling gives.
  pub record IsCache (c : PatternCache) : Type 0 where
    pub patterns :
        (s : Str) (p : Pattern) → lookup s c.patterns ≡ some p → compile_pattern u e s ≡ ok p
    pub errors :
        (s error : Str) → lookup s c.errors ≡ some error → compile_pattern u e s ≡ err error

  pub new_pattern_cache-IsCache : IsCache new_pattern_cache
  unfolding new_pattern_cache lookup
  new_pattern_cache-IsCache = record { patterns = λ s p h. cc; errors = λ s error h. cc }

  compiled-IsCache :
      (s : Str) (c : PatternCache) (r : Result Pattern)
      → compile_pattern u e s ≡ r
      → IsCache c
      → ((compiled s c r).0 ≡ r) × IsCache (compiled s c r).1
  compiled-IsCache s c (err error) h i = (
    refl,
    record {
      patterns = i.patterns;
      errors = λ t error' k. elim (Bool-cases (str_eq s t)) [
        | inl same ↦ ground (arith, k, same, h, str_eq_iff s t, lookup-insert s t error c.errors)
        | inr other ↦ i.errors t error' (ground (arith, k, other, lookup-insert s t error c.errors))
      ];
    },
  )
  compiled-IsCache s c (ok p) h i = (
    refl,
    record {
      patterns = λ t p' k. elim (Bool-cases (str_eq s t)) [
        | inl same ↦ ground (arith, k, same, h, str_eq_iff s t, lookup-insert s t p c.patterns)
        | inr other ↦ i.patterns t p' (ground (arith, k, other, lookup-insert s t p c.patterns))
      ];
      errors = i.errors;
    },
  )

  -- `Get` answers what compiling gives, whatever was asked before, and keeps the cache so: for a
  -- cache that holds what compiling gives, as the empty one does.
  pub get_pattern-IsCache :
      (s : Str) (c : PatternCache)
      → IsCache c
      → ((get_pattern s c).0 ≡ compile_pattern u e s) × IsCache (get_pattern s c).1
  unfolding get_pattern
  get_pattern-IsCache s c i = elim (Option-cases (lookup s c.patterns)) [
    | inr (p, hit) ↦ rw hit (sym (i.patterns s p hit), i)
    | inl miss ↦ elim (Option-cases (lookup s c.errors)) [
      | inr (error, hit) ↦ rw (miss, hit) (sym (i.errors s error hit), i)
      | inl new ↦ rw (miss, new) (compiled-IsCache s c (compile_pattern u e s) refl i)
    ]
  ]
