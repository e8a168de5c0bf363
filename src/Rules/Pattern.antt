-- ===== src/Rules/Pattern.antt =====
-- internal/rules/pattern.go: glob and regular expression patterns, negated, without case or several
-- at once. The globs of the package doublestar and the regular expressions of Go are an argument.
pub mod Cache
pub mod Laws
use klaudiush.Prelude.{
  Bool, true, false, not, ◌&&◌, ◌||◌, Option, none, some, List, [], ◌∷◌, ◌++◌, any, if◌then◌else◌,
}
use klaudiush.Prelude.Bytes.{Str, codes, contains, has_prefix, trim_prefix, join, str_eq}
use klaudiush.Prelude.Unicode.{Unicode}
use klaudiush.Prelude.Result.{Result, ok, err, ◌>>=◌}

-- `doublestar.ValidatePattern` and `MatchUnvalidated`; `regexp.Compile`, as the text of its error if
-- there is one, and `MatchString`.
pub record Engines : Type 0 where
  pub valid_glob : Str → Bool
  pub glob_match : (pattern s : Str) → Bool
  pub regex_error : Str → Option Str
  pub regex_match : (pattern s : Str) → Bool

pub data PatternType : Type 0 where
  glob regex : PatternType

abbrev pub regex_indicators : List Str
regex_indicators =
    codes "^"
    ∷ codes "$"
    ∷ codes "(?"
    ∷ codes "\\d"
    ∷ codes "\\w"
    ∷ codes "\\s"
    ∷ codes "\\b"
    ∷ codes "["
    ∷ codes "]"
    ∷ codes "("
    ∷ codes ")"
    ∷ codes "|"
    ∷ codes "+"
    ∷ codes ".*"
    ∷ codes ".+"
    ∷ codes "\\."
    ∷ []

unfoldable pub detect_pattern_type : Str → PatternType
detect_pattern_type pattern =
    if any (λ indicator. contains pattern indicator) regex_indicators
    then PatternType.regex
    else PatternType.glob

pub data MultiPatternMode : Type 0 where
  any_of all_of : MultiPatternMode

mutual
  pub data Pattern : Type 0 where
    glob_pattern : Str → Pattern
    regex_pattern : Str → Pattern
    negated_pattern : Pattern → Pattern
    case_insensitive_pattern : Pattern → Str → Pattern
    multi_pattern : Patterns → MultiPatternMode → Str → Pattern

  pub data Patterns : Type 0 where
    end : Patterns
    also : Pattern → Patterns → Patterns

pub record PatternOptions : Type 0 where
  pub case_insensitive : Bool
  pub negate : Bool

unfoldable pub pattern_string : Pattern → Str
pattern_string (glob_pattern p) = p
pattern_string (regex_pattern p) = p
pattern_string (negated_pattern p) = codes "!" ++ pattern_string p
pattern_string (case_insensitive_pattern p original) = original
pattern_string (multi_pattern ps mode repr) = repr

unfoldable pub is_negated : Str → Bool
is_negated pattern = has_prefix pattern (codes "!")

unfoldable pub strip_negation : Str → Str
strip_negation pattern = trim_prefix pattern (codes "!")

abbrev patterns_of : List Pattern → Patterns
patterns_of [] = end
patterns_of (p ∷ ps) = also p (patterns_of ps)

module _ (u : Unicode) (e : Engines) where
  unfoldable mutual
    -- `Match` of every kind of pattern.
    pub matches : Pattern → Str → Bool
    matches (glob_pattern p) s = e.glob_match p s
    matches (regex_pattern p) s = e.regex_match p s
    matches (negated_pattern p) s = not (matches p s)
    matches (case_insensitive_pattern p original) s = matches p (u.to_lower s)
    matches (multi_pattern end mode repr) s = true
    matches (multi_pattern (also p ps) any_of repr) s = matches_any (also p ps) s
    matches (multi_pattern (also p ps) all_of repr) s = matches_all (also p ps) s

    pub matches_any : Patterns → Str → Bool
    matches_any end s = false
    matches_any (also p ps) s = matches p s || matches_any ps s

    pub matches_all : Patterns → Str → Bool
    matches_all end s = true
    matches_all (also p ps) s = matches p s && matches_all ps s

  unfoldable pub new_glob_pattern : Str → Result Pattern
  new_glob_pattern pattern =
      if e.valid_glob pattern
      then ok (glob_pattern pattern)
      else err (codes "invalid glob pattern: " ++ pattern)

  unfoldable pub new_regex_pattern : Str → Result Pattern
  new_regex_pattern pattern = elim (e.regex_error pattern) [
    | none ↦ ok (regex_pattern pattern)
    | some error ↦ err error
  ]

  unfoldable pub new_case_insensitive_glob_pattern : Str → Result Pattern
  new_case_insensitive_glob_pattern pattern =
      if e.valid_glob (u.to_lower pattern)
      then ok (case_insensitive_pattern (glob_pattern (u.to_lower pattern)) pattern)
      else err (codes "invalid glob pattern: " ++ pattern)

  -- The wrapping at the end of each compiler.
  abbrev pub negate_if : Bool → Result Pattern → Result Pattern
  negate_if negated (err error) = err error
  negate_if true (ok p) = ok (negated_pattern p)
  negate_if false (ok p) = ok p

  unfoldable pub compile_pattern : Str → Result Pattern
  unfolding new_glob_pattern new_regex_pattern
  compile_pattern pattern =
      let stripped = if is_negated pattern then strip_negation pattern else pattern in
      negate_if (is_negated pattern) (elim (detect_pattern_type stripped) [
        | PatternType.regex ↦ new_regex_pattern stripped
        | PatternType.glob ↦ new_glob_pattern stripped
      ])

  -- `(?i)` in front, unless it is there.
  unfoldable pub with_case_flag : Bool → Str → Str
  with_case_flag insensitive pattern =
      if insensitive && not (has_prefix pattern (codes "(?i)"))
      then codes "(?i)" ++ pattern
      else pattern

  unfoldable pub compile_pattern_with_options : PatternOptions → Str → Result Pattern
  unfolding new_glob_pattern new_regex_pattern new_case_insensitive_glob_pattern with_case_flag
  compile_pattern_with_options opts pattern =
      let stripped = if is_negated pattern then strip_negation pattern else pattern in
      negate_if (opts.negate || is_negated pattern) (elim (detect_pattern_type stripped) [
        | PatternType.regex ↦ new_regex_pattern (with_case_flag opts.case_insensitive stripped)
        | PatternType.glob ↦
            if opts.case_insensitive
            then new_case_insensitive_glob_pattern stripped
            else new_glob_pattern stripped
      ])

  -- Content patterns are always regular expressions.
  unfoldable pub compile_content_with_options : PatternOptions → Str → Result Pattern
  unfolding new_regex_pattern with_case_flag
  compile_content_with_options opts pattern =
      let stripped = if is_negated pattern then strip_negation pattern else pattern in
      negate_if (opts.negate || is_negated pattern)
        (new_regex_pattern (with_case_flag opts.case_insensitive stripped))

-- The loop that compiles each pattern and stops at the first error.
unfoldable pub compile_each : (Str → Result Pattern) → List Str → Result Patterns
compile_each compile [] = ok end
compile_each compile (p ∷ ps) = do
  let q = (← compile p)
  let qs = (← compile_each compile ps)
  ok (also q qs)

abbrev pub mode_string : MultiPatternMode → Str
mode_string any_of = codes "any"
mode_string all_of = codes "all"

-- `mode(pattern, pattern, …)`
abbrev pub multi_repr : MultiPatternMode → List Str → Str
multi_repr mode ps = mode_string mode ++ (codes "(" ++ (join ps (codes ", ") ++ codes ")"))

-- `CompileMultiPattern` and the body of `NewContentMultiPatternMatcher`, which differ in how one
-- pattern is compiled; `none` is a nil pattern.
unfoldable pub compile_multi_pattern :
    (Str → Result Pattern) → MultiPatternMode → List Str → Result (Option Pattern)
unfolding compile_each
compile_multi_pattern compile mode [] = ok none
compile_multi_pattern compile mode (p ∷ []) = do ok (some (← compile p))
compile_multi_pattern compile mode (p ∷ q ∷ ps) = do
  let compiled = (← compile_each compile (p ∷ q ∷ ps))
  ok (some (multi_pattern compiled mode (multi_repr mode (p ∷ q ∷ ps))))
