-- ===== src/Exceptions/Token/Source.antt =====
-- internal/exceptions/token.go: where in a parsed command a token is looked for.
use klaudiush.Prelude.{
  Bool, false, not, ◌&&◌, Option, none, some, List, [], ◌∷◌, ◌++◌, if◌then◌else◌,
}
use klaudiush.Prelude.Bytes.{Str, is_empty, str_eq}
use klaudiush.Prelude.Bytes.Text.{trim_space}
use klaudiush.Exceptions.Types.{Token, TokenSource, env_var, comment}
use klaudiush.Exceptions.Token.{
  TokenError, Parsed, ok, err, empty_command, parse_failed, parse_token, parse_token_from_comment,
}

-- The nodes of `syntax` that the search reads.
pub data DoubleQuotedPart : Type 0 where
  quoted_lit : Str → DoubleQuotedPart
  quoted_other : DoubleQuotedPart

pub data WordPart : Type 0 where
  lit single_quoted : Str → WordPart
  double_quoted : List DoubleQuotedPart → WordPart
  other : WordPart

pub record Assign : Type 0 where
  pub name : Option Str
  pub value : Option (List WordPart)

-- `assigns` is there where the statement's command is a call.
pub record Stmt : Type 0 where
  pub assigns : Option (List Assign)
  pub comments : List Str

-- The statements in the order of `syntax.Walk`, and the trailing comments.
pub record File : Type 0 where
  pub stmts : List Stmt
  pub last : List Str

-- What the shell parser answers: the nodes, or the text of its error.
pub data ShellResult : Type 0 where
  parsed : File → ShellResult
  failed : Str → ShellResult

pub record ParserConfig : Type 0 where
  pub token_prefix : Str
  pub env_var_name : Str
  pub parse_shell : Str → ShellResult

-- `none` where an expansion stands in the quotes.
quoted_string : List DoubleQuotedPart → Option Str
quoted_string [] = some []
quoted_string (quoted_lit s ∷ parts) = elim (quoted_string parts) [
  | none ↦ none
  | some rest ↦ some (s ++ rest)
]
quoted_string (quoted_other ∷ parts) = none

parts_string : List WordPart → Option Str
unfolding quoted_string
parts_string [] = some []
parts_string (lit s ∷ parts) = elim (parts_string parts) [
  | none ↦ none
  | some rest ↦ some (s ++ rest)
]
parts_string (single_quoted s ∷ parts) = elim (parts_string parts) [
  | none ↦ none
  | some rest ↦ some (s ++ rest)
]
parts_string (double_quoted quoted ∷ parts) = elim (quoted_string quoted) [
  | none ↦ none
  | some s ↦ elim (parts_string parts) [ none ↦ none | some rest ↦ some (s ++ rest) ]
]
parts_string (other ∷ parts) = none

-- A word with an expansion anywhere yields the empty string.
unfoldable pub word_to_string : Option (List WordPart) → Str
unfolding parts_string
word_to_string none = []
word_to_string (some parts) = elim (parts_string parts) [ none ↦ [] | some s ↦ s ]

-- The first of the results that is a token.
abbrev first_ok : Parsed Token → Option Token → Option Token
first_ok (ok token) rest = some token
first_ok (err e) rest = rest

abbrev name_is : Option Str → Str → Bool
name_is none env = false
name_is (some name) env = str_eq name env

module _ (p : ParserConfig) where
  unfoldable pub token_in_assign : Assign → Parsed Token
  token_in_assign a =
      if name_is a.name p.env_var_name && not (is_empty (word_to_string a.value))
      then parse_token p.token_prefix (word_to_string a.value)
      else err TokenError.token_not_found

  unfoldable pub token_in_assigns : List Assign → Option Token
  unfolding token_in_assign
  token_in_assigns [] = none
  token_in_assigns (a ∷ rest) = first_ok (token_in_assign a) (token_in_assigns rest)

  unfoldable pub token_in_comments : List Str → Option Token
  token_in_comments [] = none
  token_in_comments (text ∷ rest) =
      first_ok (parse_token_from_comment p.token_prefix text) (token_in_comments rest)

  abbrev assigns_of : Option (List Assign) → Option Token
  assigns_of none = none
  assigns_of (some assigns) = token_in_assigns assigns

  abbrev or_else : Option Token → Option Token → Option Token
  or_else none rest = rest
  or_else (some token) rest = some token

  -- `findTokenInEnvVars`
  unfoldable pub find_token_in_env_vars : List Stmt → Option Token
  unfolding token_in_assigns
  find_token_in_env_vars [] = none
  find_token_in_env_vars (s ∷ rest) = or_else (assigns_of s.assigns) (find_token_in_env_vars rest)

  -- `findTokenInComments`
  unfoldable pub find_in_statements : List Stmt → Option Token
  unfolding token_in_comments
  find_in_statements [] = none
  find_in_statements (s ∷ rest) = or_else (token_in_comments s.comments) (find_in_statements rest)

  unfoldable pub find_token_in_comments : File → Option Token
  unfolding find_in_statements
  find_token_in_comments file =
      or_else (find_in_statements file.stmts) (token_in_comments file.last)

  abbrev found_in : File → Option (Token × TokenSource)
  found_in file = elim (find_token_in_env_vars file.stmts) [
    | some token ↦ some (token, env_var)
    | none ↦ elim (find_token_in_comments file) [ some token ↦ some (token, comment) | none ↦ none ]
  ]

  -- `Parse`; `ok none` is a command with no token.
  unfoldable pub parse : Str → Parsed (Option (Token × TokenSource))
  unfolding find_token_in_env_vars find_token_in_comments
  parse given =
      let command = trim_space given in
      if is_empty command then err empty_command else elim (p.parse_shell command) [
        | failed message ↦ err (parse_failed message)
        | parsed file ↦ ok (found_in file)
      ]
