-- ===== src/Prelude/Unicode.antt =====
-- The case mapping of `strings.ToLower` and `strings.EqualFold` follows the tables of Unicode,
-- which are data of the Go distribution: an argument, with what holds of ASCII text.
use Prim.Native.Nat.{ℕ, ◌+◌}
use mathlib.Core.Path.{◌≡◌, refl}
use mathlib.Core.Bool.{Bool, true, ◌&&◌}
use mathlib.Core.List.{map}
use klaudiush.Prelude.Tests.{ltb, leb, if◌then◌else◌}
use klaudiush.Prelude.Lists.{all}
use klaudiush.Prelude.Bytes.{Str, str_eq}

abbrev pub lower_byte : ℕ → ℕ
lower_byte c = if leb b'A' c && leb c b'Z' then c + 32 else c

abbrev pub is_ascii : Str → Bool
is_ascii s = all (λ c. ltb c 128) s

pub record Unicode : Type 0 where
  pub to_lower : Str → Str
  pub to_lower_ascii : (s : Str) → is_ascii s ≡ true → to_lower s ≡ map lower_byte s
  pub equal_fold : Str → Str → Bool
  pub equal_fold_ascii :
      (s t : Str)
      → is_ascii s ≡ true
      → is_ascii t ≡ true
      → equal_fold s t ≡ str_eq (map lower_byte s) (map lower_byte t)

-- The mapping that changes ASCII letters only meets the laws.
abbrev pub ascii_only : Unicode
ascii_only = record {
  to_lower = map lower_byte;
  to_lower_ascii = λ s h. refl;
  equal_fold = λ s t. str_eq (map lower_byte s) (map lower_byte t);
  equal_fold_ascii = λ s t h k. refl;
}
