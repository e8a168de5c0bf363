-- ===== src/Prelude/Bytes.antt =====
-- Go strings as lists of bytes: comparison, prefixes and suffixes, search, splitting and joining,
-- as the package `strings` of Go's standard library documents them.
pub mod Laws
pub mod Text
use Prim.Native.Char.{code}
use Prim.Native.String.{String}
use Prim.Native.Nat.{ℕ, zero, suc, ◌+◌, ◌-◌}
use mathlib.Core.Bool.{Bool, true, false, ◌&&◌, ◌||◌}
use mathlib.Core.Option.{Option, none, some}
use mathlib.Core.List.{List, [], ◌∷◌, ◌++◌, reverse, map}
use klaudiush.Prelude.Tests.{ltb, ◌==◌, if◌then◌else◌}
use klaudiush.Prelude.Lists.{length, drop, take, any}

abbrev pub Str : Type 0
Str = List ℕ

-- The bytes of an ASCII literal.
unfoldable pub codes : String → Str
codes String.[] = []
codes (String.◌∷◌ c s) = code c ∷ codes s

-- `a == b`
unfoldable pub str_eq : Str → Str → Bool
str_eq [] [] = true
str_eq (x ∷ xs) (y ∷ ys) = x == y && str_eq xs ys
str_eq _ _ = false

-- `a == ""`
abbrev pub is_empty : Str → Bool
is_empty [] = true
is_empty (x ∷ xs) = false

-- `cmp.Compare(a, b) <= 0`
unfoldable pub str_le : Str → Str → Bool
str_le [] ys = true
str_le (x ∷ xs) [] = false
str_le (x ∷ xs) (y ∷ ys) = if ltb x y then true else x == y && str_le xs ys

-- `strings.HasPrefix(s, prefix)`
unfoldable pub has_prefix : (s prefix : Str) → Bool
has_prefix s [] = true
has_prefix [] (p ∷ ps) = false
has_prefix (c ∷ s) (p ∷ ps) = c == p && has_prefix s ps

-- `strings.TrimPrefix(s, prefix)`
unfoldable pub trim_prefix : (s prefix : Str) → Str
unfolding has_prefix
trim_prefix s prefix = if has_prefix s prefix then drop (length prefix) s else s

-- `strings.CutSuffix(s, suffix)`, `none` where the suffix is not found
unfoldable pub cut_suffix : (s suffix : Str) → Option Str
unfolding has_prefix
cut_suffix s suffix =
    if has_prefix (reverse s) (reverse suffix)
    then some (take (length s - length suffix) s)
    else none

-- `strings.TrimSuffix(s, suffix)`
unfoldable pub trim_suffix : (s suffix : Str) → Str
unfolding cut_suffix
trim_suffix s suffix = elim (cut_suffix s suffix) [ none ↦ s | some before ↦ before ]

-- `strings.Contains(s, sub)`
unfoldable pub contains : (s sub : Str) → Bool
unfolding has_prefix
contains [] sub = has_prefix [] sub
contains (c ∷ s) sub = has_prefix (c ∷ s) sub || contains s sub

-- `s[strings.LastIndexByte(s, c)+1:]`: what follows the last `c`, all of `s` if there is none.
unfoldable pub after_last : ℕ → Str → Str
after_last c [] = []
after_last c (x ∷ s) = if any (λ y. y == c) s then after_last c s else if x == c then s else x ∷ s

-- `strings.Join(parts, sep)`
unfoldable pub join : List Str → Str → Str
join [] sep = []
join (p ∷ []) sep = p
join (p ∷ q ∷ rest) sep = p ++ (sep ++ join (q ∷ rest) sep)

-- `strings.SplitN(s, c, 2)` at a single byte, as the part before and the part after.
unfoldable pub split_at : ℕ → Str → Str × Option Str
split_at c [] = ([], none)
split_at c (x ∷ s) =
    if x == c then ([], some s) else (let (before, after) = split_at c s in (x ∷ before, after))

-- A byte that does not occur.
abbrev pub lacks : ℕ → Str → Bool
lacks c [] = true
lacks c (x ∷ s) = if x == c then false else lacks c s
