-- ===== src/HookResponse/Wording.antt =====
-- internal/hookresponse/formatter.go and disable_hint.go: the texts of a response.
-- `is_plain` tells whether `unicode.IsPrint` or `unicode.IsSpace` has a rune.
use klaudiush.Prelude.{
  ℕ, Bool, ◌||◌, Option, none, some, List, [], ◌∷◌, ◌++◌, map, take, any, length, leb, ltb,
  if◌then◌else◌,
}
use klaudiush.Prelude.Bytes.{Str, codes, str_eq, is_empty, cut_suffix, join}
use klaudiush.Prelude.Bytes.Text.{trim_space}
use klaudiush.Prelude.Maps.{lookup, is_some, get_or}
use klaudiush.Validator.{reference_code}
use klaudiush.Dispatcher.Errors.{ValidationError}
use klaudiush.HookResponse.Text.{split_on, strip_emoji, summarize_message}

unfoldable pub extract_code : Str → Str
unfolding reference_code
extract_code reference = if is_empty reference then [] else reference_code reference

abbrev in_brackets : Str → Str
in_brackets code = if is_empty code then [] else codes "[" ++ code ++ codes "] "

abbrev with_fix : (message fix_hint : Str) → Str
with_fix message fix_hint =
    if is_empty fix_hint
    then []
    else (if is_some (cut_suffix message (codes ".")) then [] else codes ".")
      ++ codes " "
      ++ fix_hint

-- No more than 200 bytes.
abbrev capped : Str → Str
capped s = if ltb 200 (length s) then take 197 s ++ codes "..." else s

module _ (is_plain : ℕ → Bool) where
  unfoldable pub format_single_reason : ValidationError → Str
  unfolding summarize_message extract_code
  format_single_reason e = capped (
      in_brackets (extract_code e.reference)
      ++ summarize_message is_plain e.message
      ++ with_fix e.message e.fix_hint)

  unfoldable pub format_decision_reason : (blocking : List ValidationError) → Str
  unfolding format_single_reason
  format_decision_reason blocking = join (map format_single_reason blocking) (codes " | ")

unfoldable pub truncate_table_suggestion : Str → Str
unfolding split_on
truncate_table_suggestion suggestion =
    let lines = split_on 10 suggestion in
    if leb (length lines) 15 then suggestion else join (take 15 lines) (10 ∷ []) ++ 10 ∷ codes "..."

-- The first suggestion of a table, as a part of the context.
unfoldable pub suggested_table : List ValidationError → List Str
unfolding truncate_table_suggestion
suggested_table [] = []
suggested_table (e ∷ errs) =
    let suggestion = get_or (lookup (codes "suggested_table") e.details) [] in
    let rest = suggested_table errs in
    if is_empty suggestion then rest else truncate_table_suggestion suggestion ∷ []

abbrev framing : List ValidationError → List Str
framing [] = []
framing (e ∷ errs) =
    (codes "Automated klaudiush validation check. Fix ALL reported errors at once and retry. "
      ++ codes "Fixing one issue can introduce another "
      ++ codes "(e.g., adding type(scope): prefix makes title exceed 50 chars).")
    ∷ []

abbrev accepted : ValidationError → Str
accepted e =
    codes "klaudiush: Exception EXC:"
    ++ extract_code e.reference
    ++ codes " accepted (reason: "
    ++ (if is_empty e.bypass_reason then codes "no reason provided" else e.bypass_reason)
    ++ codes "). Proceeding despite validation failure."

abbrev warned : ValidationError → Str
warned e = codes "klaudiush warning: " ++ e.message ++ codes ". Not blocking."

unfoldable pub format_additional_context :
    (blocking warnings bypassed : List ValidationError) → (pattern_warnings : List Str) → Str
unfolding suggested_table
format_additional_context blocking warnings bypassed pattern_warnings =
    join
      (framing blocking
        ++ map accepted bypassed
        ++ map warned warnings
        ++ suggested_table (blocking ++ warnings)
        ++ pattern_warnings)
      (codes " ")

unfoldable pub format_disable_hint : List Str → Str
format_disable_hint [] = []
format_disable_hint (code ∷ others) =
    codes "Wrong for your workflow? klaudiush disable "
    ++ join (code ∷ others) (codes " ")
    ++ 10 ∷ []

-- `if code != "" && !seen[code] { codes = append(codes, code) }`
abbrev add_code : Str → List Str → List Str
add_code code seen =
    if is_empty code || any (λ c. str_eq c code) seen then seen else seen ++ code ∷ []

abbrev add_each : List Str → List Str → List Str
add_each [] seen = seen
add_each (code ∷ others) seen = add_each others (add_code (trim_space code) seen)

abbrev add_listed : Option Str → List Str → List Str
add_listed none seen = seen
add_listed (some listed) seen = add_each (split_on b',' listed) seen

unfoldable pub blocking_codes : List ValidationError → List Str → List Str
unfolding extract_code split_on
blocking_codes [] seen = seen
blocking_codes (e ∷ errs) seen =
    let with_error =
      add_listed (lookup (codes "all_codes") e.details)
        (add_code (extract_code e.reference) seen) in
    blocking_codes errs (if e.should_block then with_error else seen)

abbrev line : (label text : Str) → Str
line label text = if is_empty text then [] else label ++ text ++ 10 ∷ []

abbrev is_rendered_elsewhere : Str → Bool
is_rendered_elsewhere k =
    str_eq k (codes "suggested_table")
    || str_eq k (codes "commit_preview")
    || str_eq k (codes "all_codes")

unfoldable pub format_details : List (Str × Str) → Str
format_details [] = []
format_details ((k, v) ∷ details) =
    let rest = format_details details in
    if is_rendered_elsewhere k || is_empty (trim_space v)
    then rest
    else 10 ∷ trim_space v ++ 10 ∷ rest

-- `visit` is the order in which a range visits the details.
module _ (is_plain : ℕ → Bool) (visit : List (Str × Str) → List (Str × Str)) where
  unfoldable pub format_single_error : ValidationError → Str
  unfolding format_details strip_emoji extract_code
  format_single_error e =
      let code = extract_code e.reference in
      (if e.should_block
        then 0xE2 ∷ 0x9D ∷ 0x8C ∷ []
        else 0xE2 ∷ 0x9A ∷ 0xA0 ∷ 0xEF ∷ 0xB8 ∷ 0x8F ∷ [])
      ++ codes " "
      ++ (if is_empty code then [] else code ++ codes ": ")
      ++ strip_emoji is_plain e.message
      ++ 10 ∷ line (codes "  Fix: ") e.fix_hint
      ++ line (codes "  Ref: ") e.reference
      ++ format_details (visit e.details)
      ++ 10 ∷ []

  unfoldable format_errors : List ValidationError → Str
  unfolding format_single_error
  format_errors [] = []
  format_errors (e ∷ errs) = format_single_error e ++ format_errors errs

  unfoldable pub format_system_message : List ValidationError → Str
  unfolding format_errors blocking_codes
  format_system_message [] = []
  format_system_message (e ∷ errs) =
      format_errors (e ∷ errs) ++ format_disable_hint (blocking_codes (e ∷ errs) [])
