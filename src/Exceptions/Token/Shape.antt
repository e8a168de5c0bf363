-- ===== src/Exceptions/Token/Shape.antt =====
-- The texts that `parseToken` accepts, and what it makes of them.
use mathlib.Core.Option
use klaudiush.Prelude.{
  ℕ, ◌≡◌, refl, sym, ap, ◌∙◌, true, false, Option, none, some, [], ◌∷◌, ◌++◌, all, arith,
}
use klaudiush.Prelude.Bytes.{Str, is_empty, split_at, lacks}
use klaudiush.Prelude.Bytes.Laws.{
  str_eq_iff, str_eq_refl, glue, glue-split_at, lacks-append, split_at-append, split_at-lacks,
}
use klaudiush.Prelude.Bytes.Text.{trim_space}
use klaudiush.Exceptions.Types.{Token}
use klaudiush.Exceptions.Token.{
  ok, is_valid_error_code, split_token, make_token, parse_token, reason_of, span_upper, is_digit,
}

abbrev pub colon : ℕ
colon = b':'

-- `raw` spells the token: the prefix, a valid code and perhaps an encoded reason, between colons.
pub data Spells (prefix raw : Str) (t : Token) : Type 0 where
  bare :
      t.prefix ≡ prefix
      → is_valid_error_code t.error_code ≡ true
      → t.raw ≡ raw
      → raw ≡ prefix ++ colon ∷ t.error_code
      → t.reason ≡ []
      → Spells prefix raw t
  with_reason :
      (encoded : Str)
      → t.prefix ≡ prefix
      → is_valid_error_code t.error_code ≡ true
      → t.raw ≡ raw
      → raw ≡ prefix ++ colon ∷ (t.error_code ++ colon ∷ encoded)
      → t.reason ≡ reason_of (some encoded)
      → Spells prefix raw t

span_upper-joins : (s : Str) → (span_upper s).0 ++ (span_upper s).1 ≡ s
unfolding span_upper
span_upper-joins [] = refl
span_upper-joins (c ∷ s) = ground (arith, span_upper-joins s)

span_upper-lacks : (s : Str) → lacks colon (span_upper s).0 ≡ true
unfolding span_upper
span_upper-lacks [] = refl
span_upper-lacks (c ∷ s) = ground (arith, span_upper-lacks s)

digits-lack : (s : Str) → all is_digit s ≡ true → lacks colon s ≡ true
digits-lack [] h = refl
digits-lack (c ∷ s) h = ground (arith, digits-lack s)

is_valid_error_code-lacks : (code : Str) → is_valid_error_code code ≡ true → lacks colon code ≡ true
unfolding is_valid_error_code
is_valid_error_code-lacks code h =
    let (letters, digits) = span_upper code in
    let digit : all is_digit digits ≡ true = ground (arith, h) in
    rw (← span_upper-joins code)
      (lacks-append colon letters digits (span_upper-lacks code) (digits-lack digits digit))

make_token_sound :
    (prefix raw : Str) (parts : Str × Option (Str × Option Str)) (t : Token)
    → raw ≡ glue colon (parts.0, Option.map (glue colon) parts.1)
    → make_token prefix raw parts ≡ ok t
    → Spells prefix raw t
unfolding reason_of
make_token_sound prefix raw (p, none) t e h = cc
make_token_sound prefix raw (p, some (code, none)) t e h =
    bare (ground (arith, str_eq_iff p prefix)) (ground arith) (ground arith)
      (ground (arith, str_eq_iff p prefix)) (ground arith)
make_token_sound prefix raw (p, some (code, some encoded)) t e h =
    with_reason encoded (ground (arith, str_eq_iff p prefix)) (ground arith) (ground arith)
      (ground (arith, str_eq_iff p prefix)) (ground arith)

glue-inner :
    (raw : Str) (parts : Str × Option Str)
    → glue colon parts ≡ raw
    → raw ≡ glue colon (parts.0, Option.map (glue colon) (Option.map (split_at colon) parts.1))
glue-inner raw (before, none) e = sym e
glue-inner raw (before, some after) e = rw (glue-split_at colon after) (sym e)

split_token-glue :
    (raw : Str)
    → raw ≡ glue colon ((split_token raw).0, Option.map (glue colon) (split_token raw).1)
unfolding split_token
split_token-glue raw = glue-inner raw (split_at colon raw) (glue-split_at colon raw)

-- A token that `parseToken` returns is spelled by the trimmed text: the prefix, a colon, its valid
-- code, and perhaps a colon and a text, which query unescaping turns into the reason.
pub parse_token_sound :
    (prefix given : Str) (t : Token)
    → parse_token prefix given ≡ ok t
    → Spells prefix (trim_space given) t
unfolding parse_token
parse_token_sound prefix given t h =
    let raw = trim_space given in
    make_token_sound prefix raw (split_token raw) t (split_token-glue raw) (ground (arith, h))

split_token_spelled :
    (prefix code : Str) (rest : Option Str)
    → lacks colon prefix ≡ true
    → lacks colon code ≡ true
    → split_token (prefix ++ colon ∷ glue colon (code, rest)) ≡ (prefix, some (code, rest))
unfolding split_token
split_token_spelled prefix code none free valid =
    rw (split_at-append colon prefix code free) (rw (split_at-lacks colon code valid))
split_token_spelled prefix code (some encoded) free valid =
    rw (split_at-append colon prefix (code ++ colon ∷ encoded) free)
      (rw (split_at-append colon code encoded valid))

is_empty-append_cons : (s t : Str) (c : ℕ) → is_empty (s ++ c ∷ t) ≡ false
is_empty-append_cons [] t c = refl
is_empty-append_cons (x ∷ s) t c = refl

make_token_spelled :
    (prefix raw code : Str) (rest : Option Str) (t : Token)
    → t.prefix ≡ prefix
    → t.error_code ≡ code
    → is_valid_error_code code ≡ true
    → t.raw ≡ raw
    → t.reason ≡ reason_of rest
    → make_token prefix raw (prefix, some (code, rest)) ≡ ok t
make_token_spelled prefix raw code rest t p c v r n = ground (arith, str_eq_refl prefix)

parse_raw_complete :
    (prefix raw : Str) (t : Token)
    → lacks colon prefix ≡ true
    → Spells prefix raw t
    → (is_empty raw ≡ false) × (make_token prefix raw (split_token raw) ≡ ok t)
unfolding reason_of
parse_raw_complete prefix raw t free (bare p v r e n) =
    let split = split_token_spelled prefix t.error_code none free (is_valid_error_code-lacks _ v) in
    (
      rw e (is_empty-append_cons prefix t.error_code colon),
      rw (ap split_token e ∙ split)
          (make_token_spelled prefix raw t.error_code none t p refl v r n),
    )
parse_raw_complete prefix raw t free (with_reason encoded p v r e n) =
    let code = t.error_code in
    let split =
      split_token_spelled prefix code (some encoded) free (is_valid_error_code-lacks _ v) in
    (
      rw e (is_empty-append_cons prefix (code ++ colon ∷ encoded) colon),
      rw (ap split_token e ∙ split)
          (make_token_spelled prefix raw code (some encoded) t p refl v r n),
    )

-- Every token that the trimmed text spells is returned, for a prefix with no colon.
pub parse_token_complete :
    (prefix given : Str) (t : Token)
    → lacks colon prefix ≡ true
    → Spells prefix (trim_space given) t
    → parse_token prefix given ≡ ok t
unfolding parse_token
parse_token_complete prefix given t free spelled =
    let (full, made) = parse_raw_complete prefix (trim_space given) t free spelled in rw full made
