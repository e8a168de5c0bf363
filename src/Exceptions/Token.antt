-- ===== src/Exceptions/Token.antt =====
-- internal/exceptions/token.go: the token `PREFIX:CODE[:REASON]` in an environment assignment or a
-- comment of a shell command. The shell parser is the package mvdan.cc/sh: an argument that yields
-- the nodes that the search reads, in the order of `syntax.Walk`.
pub mod Shape
pub mod Source
use klaudiush.Prelude.{
  ℕ, zero, suc, ◌+◌, ◌-◌, ◌*◌, Bool, true, false, ◌&&◌, ◌||◌, Option, none, some, List, [], ◌∷◌,
  ◌++◌, leb, ◌==◌, length, all, if◌then◌else◌,
}
use klaudiush.Prelude.Bytes.{Str, is_empty, str_eq, has_prefix, split_at}
use klaudiush.Prelude.Bytes.Text.{trim_space}
use klaudiush.Prelude.Maps.{get_or}
use klaudiush.Exceptions.Types.{Token}

pub data TokenError : Type 0 where
  empty_command invalid_token token_not_found invalid_error_code : TokenError
  parse_failed : Str → TokenError

pub data Parsed {ℓ} (A : Type ℓ) : Type ℓ where
  ok : A → Parsed A
  err : TokenError → Parsed A

abbrev pub is_upper : ℕ → Bool
is_upper c = leb b'A' c && leb c b'Z'

abbrev pub is_digit : ℕ → Bool
is_digit c = leb b'0' c && leb c b'9'

-- The longest prefix of capital letters, and the rest.
unfoldable pub span_upper : Str → Str × Str
span_upper [] = ([], [])
span_upper (c ∷ s) =
    if is_upper c then (let (letters, rest) = span_upper s in (c ∷ letters, rest)) else ([], c ∷ s)

-- `^[A-Z]{2,10}[0-9]{1,5}$`: capitals and digits do not overlap, so the letters are the longest
-- prefix of capitals.
unfoldable pub is_valid_error_code : Str → Bool
unfolding span_upper
is_valid_error_code code =
    let (letters, digits) = span_upper code in
    (leb 2 (length letters) && leb (length letters) 10)
    && (leb 1 (length digits) && (leb (length digits) 5 && all is_digit digits))

abbrev is_hex : ℕ → Bool
is_hex c = is_digit c || ((leb b'a' c && leb c b'f') || (leb b'A' c && leb c b'F'))

abbrev unhex : ℕ → ℕ
unhex c =
    if is_digit c then c - 48 else if leb b'a' c && leb c b'f' then c - 97 + 10 else c - 65 + 10

abbrev cons_to : ℕ → Option Str → Option Str
cons_to c none = none
cons_to c (some s) = some (c ∷ s)

abbrev plain_byte : ℕ → ℕ
plain_byte c = if c == b'+' then 32 else c

-- `url.QueryUnescape`, `none` for its error
unfoldable pub query_unescape : Str → Option Str
query_unescape [] = some []
query_unescape (c ∷ []) = if c == b'%' then none else some (plain_byte c ∷ [])
query_unescape (c ∷ h ∷ []) = elim (c == b'%') [
  | true ↦ none
  | false ↦ cons_to (plain_byte c) (query_unescape (h ∷ []))
]
query_unescape (c ∷ h ∷ l ∷ s) = elim (c == b'%') [
  | true ↦ elim (is_hex h && is_hex l) [
    | true ↦ cons_to (unhex h * 16 + unhex l) (query_unescape s)
    | false ↦ none
  ]
  | false ↦ cons_to (plain_byte c) (query_unescape (h ∷ l ∷ s))
]

-- The reason of the third part; where decoding fails, the raw part.
unfoldable pub reason_of : Option Str → Str
reason_of none = []
reason_of (some encoded) = get_or (query_unescape encoded) encoded

-- `SplitN(raw, ":", 3)`: the first part, and the second and third where they exist.
unfoldable pub split_token : Str → Str × Option (Str × Option Str)
split_token raw =
    let (prefix, rest) = split_at b':' raw in
    (prefix, elim rest [ none ↦ none | some s ↦ some (split_at b':' s) ])

abbrev make_token : Str → Str → Str × Option (Str × Option Str) → Parsed Token
make_token token_prefix raw (prefix, none) = err invalid_token
make_token token_prefix raw (prefix, some (code, encoded)) =
    if str_eq prefix token_prefix
    then (if is_valid_error_code code
        then ok
            (record { prefix = prefix; error_code = code; reason = reason_of encoded; raw = raw })
        else err invalid_error_code)
    else err invalid_token

unfoldable pub parse_token : (token_prefix raw : Str) → Parsed Token
parse_token token_prefix given =
    let raw = trim_space given in
    if is_empty raw then err invalid_token else make_token token_prefix raw (split_token raw)

-- `tokenStr[:strings.IndexAny(tokenStr, " \t\n")]`
unfoldable pub until_blank : Str → Str
until_blank [] = []
until_blank (c ∷ s) = if c == 32 || (c == 9 || c == 10) then [] else c ∷ until_blank s

-- The start of the text, or behind a blank or a tab.
abbrev pub at_boundary : Option ℕ → Bool
at_boundary none = true
at_boundary (some c) = c == 32 || c == 9

-- The loop of `parseTokenFromComment`. `skip` bytes belong to an occurrence that was passed over,
-- and `before` is the byte in front of the text.
unfoldable pub scan_comment : (token_prefix : Str) → ℕ → Option ℕ → Str → Parsed Token
unfolding until_blank
scan_comment token_prefix skip before [] = err token_not_found
scan_comment token_prefix (suc skip) before (c ∷ s) = scan_comment token_prefix skip (some c) s
scan_comment token_prefix zero before (c ∷ s) =
    elim (has_prefix (c ∷ s) (token_prefix ++ b':' ∷ [])) [
      | true ↦ elim (at_boundary before) [
        | true ↦ parse_token token_prefix (until_blank (c ∷ s))
        | false ↦ scan_comment token_prefix (length token_prefix) (some c) s
      ]
      | false ↦ scan_comment token_prefix zero (some c) s
    ]

unfoldable pub parse_token_from_comment : (token_prefix text : Str) → Parsed Token
unfolding scan_comment
parse_token_from_comment token_prefix text = scan_comment token_prefix 0 none text
