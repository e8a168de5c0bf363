-- ===== src/HookResponse/Text.antt =====
-- internal/hookresponse/formatter.go: what is taken from a message of several paragraphs.
use klaudiush.Prelude.{
  ℕ, zero, suc, ◌+◌, ◌-◌, ◌*◌, Bool, not, ◌&&◌, ◌||◌, List, [], ◌∷◌, ◌++◌, take, any, leb, ltb,
  ◌==◌, if◌then◌else◌,
}
use klaudiush.Prelude.Bytes.{Str, codes, is_empty, has_prefix, contains, cut_suffix}
use klaudiush.Prelude.Bytes.Text.{trim_space, rune_width}
use klaudiush.Prelude.Maps.{is_some}

abbrev cons_part : ℕ → List Str → List Str
cons_part c [] = (c ∷ []) ∷ []
cons_part c (part ∷ parts) = (c ∷ part) ∷ parts

-- `strings.Split` at a single byte.
unfoldable pub split_on : ℕ → Str → List Str
split_on sep [] = [] ∷ []
split_on sep (c ∷ s) =
    let parts = split_on sep s in if c == sep then [] ∷ parts else cons_part c parts

-- `strings.Split(msg, "\n\n")`
unfoldable pub paragraphs_of : Str → List Str
paragraphs_of [] = [] ∷ []
paragraphs_of (c ∷ []) = (c ∷ []) ∷ []
paragraphs_of (c ∷ d ∷ s) =
    let from_next = paragraphs_of (d ∷ s) in
    let from_rest = paragraphs_of s in
    if c == 10 && d == 10 then [] ∷ from_rest else cons_part c from_next

abbrev first_line : List Str → Str
first_line [] = []
first_line (line ∷ lines) = if is_empty (trim_space line) then first_line lines else trim_space line

unfoldable pub first_non_empty_line : Str → Str
unfolding split_on
first_non_empty_line text = first_line (split_on 10 text)

abbrev within : ℕ → ℕ → ℕ → Bool
within lo hi r = leb lo r && leb r hi

-- The rune at the front, of the width that it has there; an invalid byte is U+FFFD.
unfoldable pub rune_at : Str → ℕ
rune_at (a ∷ b ∷ c ∷ d ∷ s) =
    let w = rune_width (a ∷ b ∷ c ∷ d ∷ s) in
    if w == 4
    then 262144 * (a - 0xF0) + 4096 * (b - 0x80) + 64 * (c - 0x80) + (d - 0x80)
    else if w == 3
    then 4096 * (a - 0xE0) + 64 * (b - 0x80) + (c - 0x80)
    else if w == 2
    then 64 * (a - 0xC0) + (b - 0x80)
    else if ltb a 128
    then a
    else 0xFFFD
rune_at (a ∷ b ∷ c ∷ []) =
    let w = rune_width (a ∷ b ∷ c ∷ []) in
    if w == 3
    then 4096 * (a - 0xE0) + 64 * (b - 0x80) + (c - 0x80)
    else if w == 2
    then 64 * (a - 0xC0) + (b - 0x80)
    else if ltb a 128
    then a
    else 0xFFFD
rune_at (a ∷ b ∷ []) =
    if rune_width (a ∷ b ∷ []) == 2
    then 64 * (a - 0xC0) + (b - 0x80)
    else if ltb a 128
    then a
    else 0xFFFD
rune_at (a ∷ []) = if ltb a 128 then a else 0xFFFD
rune_at [] = 0xFFFD

-- What `WriteRune` writes of the rune at the front.
abbrev written : Str → Str
written s = if rune_at s == 0xFFFD then 0xEF ∷ 0xBF ∷ 0xBD ∷ [] else take (rune_width s) s

abbrev supplementary_prefixes : List Str
supplementary_prefixes =
    codes "Available remotes:"
    ∷ codes "Use '"
    ∷ codes "Use \""
    ∷ codes "Use `"
    ∷ codes "Files being added:"
    ∷ codes "Current status:"
    ∷ codes "Example:"
    ∷ codes "Examples:"
    ∷ codes "Staged files:"
    ∷ codes "Modified files:"
    ∷ codes "Untracked files:"
    ∷ codes "Tip:"
    ∷ codes "Note:"
    ∷ codes "See "
    ∷ []

-- `is_plain` tells whether `unicode.IsPrint` or `unicode.IsSpace` has a rune.
module _ (is_plain : ℕ → Bool) where
  unfoldable pub is_emoji_rune : ℕ → Bool
  is_emoji_rune r =
      within 0x1F600 0x1F64F r
      || within 0x1F300 0x1F5FF r
      || within 0x1F680 0x1F6FF r
      || within 0x1F900 0x1F9FF r
      || within 0x2600 0x26FF r
      || within 0x2700 0x27BF r
      || r == 0xFE0F
      || r == 0x200D
      || not (is_plain r)

  -- Some bytes may still belong to the rune before.
  unfoldable without_emoji : ℕ → Str → Str
  unfolding is_emoji_rune rune_at
  without_emoji skip [] = []
  without_emoji (suc skip) (b ∷ s) = without_emoji skip s
  without_emoji zero (b ∷ s) =
      let rest = without_emoji (rune_width (b ∷ s) - 1) s in
      if is_emoji_rune (rune_at (b ∷ s)) then rest else written (b ∷ s) ++ rest

  unfoldable pub strip_emoji : Str → Str
  unfolding without_emoji
  strip_emoji s = trim_space (without_emoji 0 s)

  unfoldable pub is_supplementary_context : Str → Bool
  unfolding strip_emoji first_non_empty_line
  is_supplementary_context paragraph =
      any (λ prefix. has_prefix (strip_emoji (first_non_empty_line paragraph)) prefix)
        supplementary_prefixes

  -- The lines of the paragraphs that say something.
  unfoldable pub summary_lines : List Str → List Str
  unfolding is_supplementary_context
  summary_lines [] = []
  summary_lines (p ∷ ps) =
      let paragraph = trim_space p in
      let line = strip_emoji (first_non_empty_line paragraph) in
      let rest = summary_lines ps in
      if is_empty paragraph
      then rest
      else if is_supplementary_context paragraph
      then rest
      else if is_empty (first_non_empty_line paragraph)
      then rest
      else if is_empty line
      then rest
      else line ∷ rest

  abbrev joined : (message : Str) → List Str → Str
  joined message [] =
      if is_empty (first_non_empty_line message)
      then message
      else strip_emoji (first_non_empty_line message)
  joined message (first ∷ []) = first
  joined message (first ∷ second ∷ more) =
      if is_some (cut_suffix first (codes ":"))
      then first ++ codes " " ++ second
      else first ++ codes ". " ++ second

  unfoldable pub summarize_message : Str → Str
  unfolding summary_lines paragraphs_of
  summarize_message message =
      if contains message (10 ∷ [])
      then joined message (take 2 (summary_lines (paragraphs_of message)))
      else strip_emoji message
