-- ===== src/Prelude/Bytes/Text.antt =====
-- White space, runes and numbers of byte strings: `strings.TrimSpace`,
-- `utf8.RuneCountInString` and `strconv.Itoa` of Go's standard library.
pub mod Fuel
use klaudiush.Prelude.Tests.{ltb, leb, ◌==◌, if◌then◌else◌}
use klaudiush.Prelude.Lists.{length, drop}
use klaudiush.Prelude.Int.{ℤ, pos, negsuc}
use Prim.Native.Nat.{ℕ, zero, suc, ◌+◌, ◌-◌, ◌/◌, ◌%◌}
use mathlib.Core.Path.{◌≡◌, refl}
use mathlib.Core.Bool.{Bool, ◌&&◌}
use mathlib.Core.Option.{Option, none, some}
use mathlib.Core.List.{List, [], ◌∷◌, reverse, map}
use klaudiush.Prelude.Bytes.{Str, has_prefix}

-- The UTF-8 encodings of the runes that `unicode.IsSpace` accepts.
abbrev spaces : List Str
spaces =
    (9 ∷ [])
    ∷ (10 ∷ [])
    ∷ (11 ∷ [])
    ∷ (12 ∷ [])
    ∷ (13 ∷ [])
    ∷ (32 ∷ [])
    ∷ (0xC2 ∷ 0x85 ∷ [])
    ∷ (0xC2 ∷ 0xA0 ∷ [])
    ∷ (0xE1 ∷ 0x9A ∷ 0x80 ∷ [])
    ∷ (0xE2 ∷ 0x80 ∷ 0x80 ∷ [])
    ∷ (0xE2 ∷ 0x80 ∷ 0x81 ∷ [])
    ∷ (0xE2 ∷ 0x80 ∷ 0x82 ∷ [])
    ∷ (0xE2 ∷ 0x80 ∷ 0x83 ∷ [])
    ∷ (0xE2 ∷ 0x80 ∷ 0x84 ∷ [])
    ∷ (0xE2 ∷ 0x80 ∷ 0x85 ∷ [])
    ∷ (0xE2 ∷ 0x80 ∷ 0x86 ∷ [])
    ∷ (0xE2 ∷ 0x80 ∷ 0x87 ∷ [])
    ∷ (0xE2 ∷ 0x80 ∷ 0x88 ∷ [])
    ∷ (0xE2 ∷ 0x80 ∷ 0x89 ∷ [])
    ∷ (0xE2 ∷ 0x80 ∷ 0x8A ∷ [])
    ∷ (0xE2 ∷ 0x80 ∷ 0xA8 ∷ [])
    ∷ (0xE2 ∷ 0x80 ∷ 0xA9 ∷ [])
    ∷ (0xE2 ∷ 0x80 ∷ 0xAF ∷ [])
    ∷ (0xE2 ∷ 0x81 ∷ 0x9F ∷ [])
    ∷ (0xE3 ∷ 0x80 ∷ 0x80 ∷ [])
    ∷ []

-- `s` without the first of the prefixes that it has.
pub strip_one : List Str → Str → Option Str
unfolding has_prefix
strip_one [] s = none
strip_one (p ∷ ps) s = if has_prefix s p then some (drop (length p) s) else strip_one ps s

-- Each round drops at least one byte, so the length is fuel enough.
pub trim_left : List Str → ℕ → Str → Str
unfolding strip_one
trim_left ps zero s = s
trim_left ps (suc fuel) s = elim (strip_one ps s) [ none ↦ s | some rest ↦ trim_left ps fuel rest ]

trim_right : Str → Str
unfolding trim_left
trim_right s = reverse (trim_left (map reverse spaces) (length s) (reverse s))

unfoldable pub trim_space : Str → Str
unfolding trim_left trim_right
trim_space s = trim_right (trim_left spaces (length s) s)

abbrev between : ℕ → ℕ → ℕ → Bool
between lo hi b = leb lo b && leb b hi

-- The second byte that the first byte of a long encoding allows.
second_ok : ℕ → ℕ → Bool
second_ok a b =
    if a == 0xE0
    then between 0xA0 0xBF b
    else if a == 0xED
    then between 0x80 0x9F b
    else if a == 0xF0
    then between 0x90 0xBF b
    else if a == 0xF4
    then between 0x80 0x8F b
    else between 0x80 0xBF b

-- The bytes of the rune at the front; an invalid byte is a rune of one byte.
unfoldable pub rune_width : Str → ℕ
unfolding second_ok
rune_width (a ∷ b ∷ c ∷ d ∷ s) =
    if between 0xC2 0xDF a && between 0x80 0xBF b
    then 2
    else if between 0xE0 0xEF a && (second_ok a b && between 0x80 0xBF c)
    then 3
    else if between 0xF0 0xF4 a && (second_ok a b && (between 0x80 0xBF c && between 0x80 0xBF d))
    then 4
    else 1
rune_width (a ∷ b ∷ c ∷ []) =
    if between 0xC2 0xDF a && between 0x80 0xBF b
    then 2
    else if between 0xE0 0xEF a && (second_ok a b && between 0x80 0xBF c)
    then 3
    else 1
rune_width (a ∷ b ∷ []) = if between 0xC2 0xDF a && between 0x80 0xBF b then 2 else 1
rune_width s = 1

-- The bytes still to be skipped belong to the rune that was counted last.
rune_count_from : ℕ → Str → ℕ
unfolding rune_width
rune_count_from skip [] = 0
rune_count_from (suc skip) (b ∷ s) = rune_count_from skip s
rune_count_from zero (b ∷ s) = suc (rune_count_from (rune_width (b ∷ s) - 1) s)

unfoldable pub rune_count : Str → ℕ
unfolding rune_count_from
rune_count s = rune_count_from 0 s

-- The decimal digits of `n`, in front of `acc`. `n + 1` rounds are enough.
pub digits_from : ℕ → ℕ → Str → Str
digits_from zero n acc = acc
digits_from (suc fuel) n acc =
    let rest = digits_from fuel (n / 10) ((48 + n % 10) ∷ acc) in
    if ltb n 10 then (48 + n) ∷ acc else rest

unfoldable pub itoa : ℤ → Str
unfolding digits_from
itoa (pos n) = digits_from (suc n) n []
itoa (negsuc n) = b'-' ∷ digits_from (suc (suc n)) (suc n) []

itoa_tests : (itoa (pos 407) ≡ 52 ∷ 48 ∷ 55 ∷ []) × (itoa (negsuc 0) ≡ 45 ∷ 49 ∷ [])
unfolding itoa
itoa_tests = (refl, refl)

trim_space_test :
    trim_space (32 ∷ 0xC2 ∷ 0xA0 ∷ 65 ∷ 32 ∷ 66 ∷ 0xE3 ∷ 0x80 ∷ 0x80 ∷ 10 ∷ []) ≡ 65 ∷ 32 ∷ 66 ∷ []
unfolding trim_space
trim_space_test = refl

-- "aé€" and a stray continuation byte
rune_count_test : rune_count (97 ∷ 0xC3 ∷ 0xA9 ∷ 0xE2 ∷ 0x82 ∷ 0xAC ∷ 0x80 ∷ []) ≡ 4
unfolding rune_count
rune_count_test = refl
