-- ===== src/CommandParser/Git/Flags.antt =====
-- pkg/parser/git.go: what is asked of a git command.
use klaudiush.Prelude.{
  Bool, false, ◌&&◌, ◌||◌, not, List, [], ◌∷◌, any, length, ltb, ◌==◌, drop, if◌then◌else◌,
}
use klaudiush.Prelude.Bytes.{Str, codes, str_eq, is_empty}
use klaudiush.Prelude.Maps.{lookup, is_some, get_or}
use klaudiush.CommandParser.Git.{GitCommand}

-- A single dash, and more than one letter, among which is the letter of the flag.
abbrev has_letter : (flag f : Str) → Bool
has_letter (d ∷ letter ∷ []) (e ∷ first ∷ second ∷ others) =
    d == b'-'
    && e == b'-'
    && not (first == b'-')
    && any (λ c. c == letter) (first ∷ second ∷ others)
has_letter flag f = false

unfoldable pub has_flag : Str → GitCommand → Bool
has_flag flag g = any (λ f. str_eq f flag || has_letter flag f) g.flags

unfoldable pub get_flag_value : Str → GitCommand → Str
get_flag_value flag g = get_or (lookup flag g.flag_map) []

unfoldable pub extract_commit_message : GitCommand → Str
unfolding get_flag_value
extract_commit_message g =
    if is_empty (get_flag_value (codes "-m") g)
    then get_flag_value (codes "--message") g
    else get_flag_value (codes "-m") g

abbrev first_or_empty : List Str → Str
first_or_empty [] = []
first_or_empty (arg ∷ args) = arg

abbrev last_or_empty : List Str → Str
last_or_empty [] = []
last_or_empty (arg ∷ []) = arg
last_or_empty (arg ∷ other ∷ args) = last_or_empty (other ∷ args)

abbrev is_one_of : Str → List Str → Bool
is_one_of s names = any (λ name. str_eq s name) names

unfoldable pub extract_remote : GitCommand → Str
extract_remote g =
    if is_one_of g.subcommand (codes "push" ∷ codes "pull" ∷ codes "fetch" ∷ [])
    then first_or_empty g.args
    else []

unfoldable pub extract_branch_name : GitCommand → Str
extract_branch_name g =
    if is_one_of g.subcommand (codes "checkout" ∷ codes "switch" ∷ [])
    then first_or_empty g.args
    else if str_eq g.subcommand (codes "branch")
    then last_or_empty g.args
    else if is_one_of g.subcommand (codes "push" ∷ codes "pull" ∷ [])
    then first_or_empty (drop 1 g.args)
    else []

unfoldable pub extract_file_paths : GitCommand → List Str
extract_file_paths g =
    if is_one_of g.subcommand (codes "add" ∷ codes "rm" ∷ [])
    then g.args
    else if str_eq g.subcommand (codes "mv") && ltb 1 (length g.args)
    then last_or_empty g.args ∷ []
    else []

unfoldable pub get_working_directory : GitCommand → Str
get_working_directory g = get_or (lookup (codes "-C") g.global_options) g.working_directory

unfoldable pub get_git_dir : GitCommand → Str
get_git_dir g = get_or (lookup (codes "--git-dir") g.global_options) []

unfoldable pub has_global_option : Str → GitCommand → Bool
has_global_option option g = is_some (lookup option g.global_options)
