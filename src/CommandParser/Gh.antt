-- ===== src/CommandParser/Gh.antt =====
-- pkg/parser/gh.go: the arguments of `gh pr merge`.
use klaudiush.Prelude.{
  ℕ, ◌+◌, ◌-◌, ◌*◌, Bool, true, false, not, ◌&&◌, ◌||◌, Option, none, some, List, [], ◌∷◌, ◌++◌,
  drop, any, leb, ◌==◌, head?, if◌then◌else◌,
}
use klaudiush.Prelude.Bytes.{Str, codes, str_eq, has_prefix, split_at, is_empty}
use klaudiush.Prelude.Int.{ℤ, pos, negsuc}
use klaudiush.Prelude.Maps.{get_or}
use klaudiush.CommandParser.{Command}

pub data GhError : Type 0 where
  not_gh_command not_pr_merge_command : GhError

pub data GhResult {ℓ} (A : Type ℓ) : Type ℓ where
  refused : GhError → GhResult A
  read : A → GhResult A

pub record GhMergeCommand : Type 0 where
  pub pr_number : ℤ
  pub squash : Bool
  pub merge : Bool
  pub rebase : Bool
  pub auto : Bool
  pub disable_auto : Bool
  pub delete_branch : Bool
  pub admin : Bool
  pub subject : Str
  pub body : Str
  pub body_file : Str
  pub match_head : Str
  pub repo : Str
  pub raw_args : List Str

abbrev is_digit : ℕ → Bool
is_digit c = leb b'0' c && leb c b'9'

-- The number that digits give, if there are only digits.
abbrev number_from : ℕ → Str → Option ℕ
number_from n [] = some n
number_from n (c ∷ s) = if is_digit c then number_from (10 * n + (c - b'0')) s else none

abbrev digits_of : Str → Option ℕ
digits_of [] = none
digits_of (c ∷ s) = number_from 0 (c ∷ s)

abbrev max_int : ℕ
max_int = 9223372036854775807

abbrev positive : Option ℕ → Option ℤ
positive none = none
positive (some n) = if leb n max_int then some (pos n) else none

abbrev negative : Option ℕ → Option ℤ
negative none = none
negative (some n) =
    if n == 0 then some (pos 0) else if leb n (max_int + 1) then some (negsuc (n - 1)) else none

-- `strconv.Atoi` on a machine with 64 bits; `none` is its error.
unfoldable pub atoi : Str → Option ℤ
atoi [] = none
atoi (c ∷ s) =
    if c == b'-'
    then negative (digits_of s)
    else if c == b'+'
    then positive (digits_of s)
    else positive (digits_of (c ∷ s))

-- The characters in front of the first slash, and what follows them.
abbrev to_slash : Str → Str × Str
to_slash [] = ([], [])
to_slash (c ∷ s) =
    let (before, after) = to_slash s in if c == b'/' then ([], c ∷ s) else (c ∷ before, after)

abbrev leading_digits : Str → Str
leading_digits [] = []
leading_digits (c ∷ s) = if is_digit c then c ∷ leading_digits s else []

-- What `prURLRegex` captures at the front of a text.
unfoldable pub pr_number_at : Str → Option Str
pr_number_at s =
    let (owner, after_owner) = to_slash (drop 11 s) in
    let (repo, after_repo) = to_slash (drop 1 after_owner) in
    let number = leading_digits (drop 6 after_repo) in
    if has_prefix s (codes "github.com/")
      && not (is_empty owner)
      && not (is_empty repo)
      && has_prefix after_repo (codes "/pull/")
      && not (is_empty number)
    then some number
    else none

-- The first match in a text.
unfoldable pub find_pr_number : Str → Option Str
unfolding pr_number_at
find_pr_number [] = none
find_pr_number (c ∷ s) =
    let later = find_pr_number s in elim (pr_number_at (c ∷ s)) [ none ↦ later | some n ↦ some n ]

unfoldable pub extract_pr_number_from_url : Str → ℤ
unfolding find_pr_number atoi
extract_pr_number_from_url url = elim (find_pr_number url) [
  | none ↦ pos 0
  | some number ↦ get_or (atoi number) (pos 0)
]

unfoldable pub extract_flag_value : Str → Str
extract_flag_value arg = get_or (split_at b'=' arg).1 []

abbrev is_one_of : Str → List Str → Bool
is_one_of s names = any (λ name. str_eq s name) names

-- `none` where the argument is no such flag.
unfoldable pub parse_boolean_flag : Str → GhMergeCommand → Option GhMergeCommand
parse_boolean_flag arg c =
    if is_one_of arg (codes "--squash" ∷ codes "-s" ∷ [])
    then some (record c { squash = true })
    else if is_one_of arg (codes "--merge" ∷ codes "-m" ∷ [])
    then some (record c { merge = true })
    else if is_one_of arg (codes "--rebase" ∷ codes "-r" ∷ [])
    then some (record c { rebase = true })
    else if str_eq arg (codes "--auto")
    then some (record c { auto = true })
    else if str_eq arg (codes "--disable-auto")
    then some (record c { disable_auto = true })
    else if is_one_of arg (codes "--delete-branch" ∷ codes "-d" ∷ [])
    then some (record c { delete_branch = true })
    else if str_eq arg (codes "--admin")
    then some (record c { admin = true })
    else none

-- The fields that a flag sets, by its long name and its short one.
abbrev value_flag : (is : Str → Str → Bool) → Str → GhMergeCommand → Option GhMergeCommand
value_flag is value c =
    if is (codes "--subject") (codes "-t")
    then some (record c { subject = value })
    else if is (codes "--body") (codes "-b")
    then some (record c { body = value })
    else if is (codes "--body-file") (codes "-F")
    then some (record c { body_file = value })
    else if is (codes "--match-head-commit") (codes "--match-head-commit")
    then some (record c { match_head = value })
    else if is (codes "--repo") (codes "-R")
    then some (record c { repo = value })
    else none

unfoldable pub parse_value_flag : Str → (next : Option Str) → GhMergeCommand → Option GhMergeCommand
parse_value_flag arg none c = none
parse_value_flag arg (some value) c =
    value_flag (λ long short. str_eq arg long || str_eq arg short) value c

abbrev equal_sign : Str → Str → Bool
equal_sign arg name = has_prefix arg (name ++ b'=' ∷ [])

unfoldable pub parse_equal_flag : Str → GhMergeCommand → Option GhMergeCommand
unfolding extract_flag_value
parse_equal_flag arg c =
    value_flag (λ long short. equal_sign arg long || equal_sign arg short) (extract_flag_value arg)
      c

unfoldable pub parse_positional_arg : Str → GhMergeCommand → GhMergeCommand
unfolding extract_pr_number_from_url atoi
parse_positional_arg arg c = record c {
  pr_number = get_or (atoi arg) (extract_pr_number_from_url arg);
}

-- The first of the readings that fits, and whether the next argument is the flag's value.
abbrev first_reading :
    (boolean valued equal : Option GhMergeCommand) → GhMergeCommand → GhMergeCommand × Bool
first_reading (some c) valued equal other = (c, false)
first_reading none (some c) equal other = (c, true)
first_reading none none (some c) other = (c, false)
first_reading none none none other = (other, false)

unfoldable pub parse_arg : Str → (next : Option Str) → GhMergeCommand → GhMergeCommand × Bool
unfolding parse_boolean_flag parse_value_flag parse_equal_flag parse_positional_arg
parse_arg arg next c =
    first_reading (parse_boolean_flag arg c) (parse_value_flag arg next c) (parse_equal_flag arg c)
      (if has_prefix arg (codes "-") then c else parse_positional_arg arg c)

unfoldable pub parse_merge_args : (skip : Bool) → List Str → GhMergeCommand → GhMergeCommand
unfolding parse_arg
parse_merge_args skip [] c = c
parse_merge_args true (value ∷ rest) c = parse_merge_args false rest c
parse_merge_args false (arg ∷ rest) c =
    let (c', skip) = parse_arg arg (head? rest) c in parse_merge_args skip rest c'

abbrev pub started : List Str → GhMergeCommand
started args = record {
  pr_number = pos 0;
  squash = false;
  merge = false;
  rebase = false;
  auto = false;
  disable_auto = false;
  delete_branch = false;
  admin = false;
  subject = [];
  body = [];
  body_file = [];
  match_head = [];
  repo = [];
  raw_args = args;
}

unfoldable pub parse_gh_merge_command : Command → GhResult GhMergeCommand
unfolding parse_merge_args
parse_gh_merge_command cmd =
    if not (str_eq cmd.name (codes "gh")) then refused not_gh_command else elim cmd.args [
      | [] ↦ refused not_pr_merge_command
      | pr ∷ [] ↦ refused not_pr_merge_command
      | pr ∷ merge ∷ args ↦
          if str_eq pr (codes "pr") && str_eq merge (codes "merge")
          then read (parse_merge_args false args (started cmd.args))
          else refused not_pr_merge_command
    ]

unfoldable pub is_gh_pr_merge : Command → Bool
is_gh_pr_merge cmd = str_eq cmd.name (codes "gh") && elim cmd.args [
  | [] ↦ false
  | pr ∷ [] ↦ false
  | pr ∷ merge ∷ args ↦ str_eq pr (codes "pr") && str_eq merge (codes "merge")
]

unfoldable pub is_squash_merge : GhMergeCommand → Bool
is_squash_merge c = not (c.merge || c.rebase)

unfoldable pub is_auto_merge : GhMergeCommand → Bool
is_auto_merge c = c.auto
