-- ===== src/CommandParser/Git.antt =====
-- pkg/parser/git.go: the options, flags and arguments of a git command.
pub mod Flags
pub mod Globals
pub mod Rendered
use klaudiush.Prelude.{
  ℕ, zero, suc, ◌-◌, Bool, true, false, not, ◌&&◌, ◌||◌, Option, none, some, List, [], ◌∷◌, ◌++◌,
  take, drop, any, length, ltb, ◌==◌, head?, if◌then◌else◌,
}
use klaudiush.Prelude.Bytes.{Str, codes, str_eq, has_prefix, is_empty, contains, split_at}
use klaudiush.Prelude.Bytes.Text.{rune_width}
use klaudiush.Prelude.Maps.{lookup, insert, is_some, get_or}
use klaudiush.CommandParser.{Command}

pub data GitError : Type 0 where
  not_git_command no_subcommand : GitError

pub data GitResult {ℓ} (A : Type ℓ) : Type ℓ where
  error : GitError → GitResult A
  parsed : A → GitResult A

abbrev pub Options : Type 0
Options = List (Str × Str)

pub record GitCommand : Type 0 where
  pub subcommand : Str
  pub flags : List Str
  pub args : List Str
  pub flag_map : Options
  pub global_options : Options
  pub working_directory : Str

abbrev global_options_with_value : List (Str × Bool)
global_options_with_value =
    (codes "-C", true)
    ∷ (codes "--git-dir", true)
    ∷ (codes "--work-tree", true)
    ∷ (codes "-c", true)
    ∷ (codes "--namespace", true)
    ∷ (codes "--super-prefix", true)
    ∷ (codes "--config-env", true)
    ∷ (codes "--exec-path", true)
    ∷ (codes "--html-path", false)
    ∷ (codes "--man-path", false)
    ∷ (codes "--info-path", false)
    ∷ (codes "--paginate", false)
    ∷ (codes "-p", false)
    ∷ (codes "--no-pager", false)
    ∷ (codes "--bare", false)
    ∷ (codes "--no-replace-objects", false)
    ∷ (codes "--literal-pathspecs", false)
    ∷ (codes "--glob-pathspecs", false)
    ∷ (codes "--noglob-pathspecs", false)
    ∷ (codes "--icase-pathspecs", false)
    ∷ (codes "--no-optional-locks", false)
    ∷ (codes "--list-cmds", true)
    ∷ []

abbrev flags_with_values : List (Str × Bool)
flags_with_values =
    (codes "-m", true)
    ∷ (codes "--message", true)
    ∷ (codes "-F", true)
    ∷ (codes "--file", true)
    ∷ (codes "-C", true)
    ∷ (codes "--reuse-message", true)
    ∷ (codes "-c", false)
    ∷ (codes "-b", false)
    ∷ []

unfoldable pub takes_value : Str → Bool
takes_value flag = get_or (lookup flag flags_with_values) false

-- What an argument in front of the subcommand is.
pub data GlobalArg : Type 0 where
  no_option : GlobalArg
  with_value : (name value : Str) → GlobalArg
  known_option : (takes : Bool) → GlobalArg

abbrev pub option_of : Option Bool → GlobalArg
option_of none = no_option
option_of (some takes) = known_option takes

abbrev pub option_with : Str × Option Str → Option Bool → GlobalArg
option_with (name, value) none = no_option
option_with (name, value) (some takes) = with_value name (get_or value [])

unfoldable pub global_arg : Str → GlobalArg
global_arg arg =
    let parts = split_at b'=' arg in
    if not (has_prefix arg (codes "-"))
    then no_option
    else if has_prefix arg (codes "--") && contains arg (codes "=")
    then option_with parts (lookup parts.0 global_options_with_value)
    else option_of (lookup arg global_options_with_value)

-- The global options, and the arguments from the subcommand on.
unfoldable pub parse_global_options : List Str → Options → Options × List Str
parse_global_options [] options = (options, [])
parse_global_options (arg ∷ []) options = elim (global_arg arg) [
  | no_option ↦ (options, arg ∷ [])
  | with_value name value ↦ (insert name value options, [])
  | known_option takes ↦ (insert arg [] options, [])
]
parse_global_options (arg ∷ next ∷ rest) options =
    let from_next = parse_global_options (next ∷ rest) in
    let from_rest = parse_global_options rest in
    elim (global_arg arg) [
      | no_option ↦ (options, arg ∷ next ∷ rest)
      | with_value name value ↦ from_next (insert name value options)
      | known_option takes ↦
          if takes then from_rest (insert arg next options) else from_next (insert arg [] options)
    ]

abbrev pub with_flag : Str → GitCommand → GitCommand
with_flag flag g = record g { flags = g.flags ++ flag ∷ [] }

-- `if _, set := m[flag]; !set { m[flag] = value }`
unfoldable pub set_first : Str → Str → Options → Options
set_first flag value options =
    if is_some (lookup flag options) then options else insert flag value options

-- The command with a flag, and whether the next argument is its value.
unfoldable pub add_flag : Str → (next : Option Str) → GitCommand → GitCommand × Bool
unfolding takes_value set_first
add_flag flag none g = (with_flag flag g, false)
add_flag flag (some value) g =
    if takes_value flag
    then (record (with_flag flag g) { flag_map = set_first flag value g.flag_map }, true)
    else (with_flag flag g, false)

-- `"-" + string(flagChar)` of the rune at the front: an invalid byte becomes U+FFFD.
unfoldable pub rune_flag : Str → Str
unfolding rune_width
rune_flag [] = codes "-"
rune_flag (b ∷ s) =
    if rune_width (b ∷ s) == 1 && not (ltb b 128)
    then b'-' ∷ 0xEF ∷ 0xBF ∷ 0xBD ∷ []
    else b'-' ∷ take (rune_width (b ∷ s)) (b ∷ s)

-- The value of the last flag of several is the next argument, if there is one.
abbrev pub last_value : Str → (next : Option Str) → GitCommand → GitCommand × Bool
last_value flag none g = (g, false)
last_value flag (some value) g = (record g { flag_map = insert flag value g.flag_map }, true)

abbrev pub inline_value : Str → Str → (next : Option Str) → GitCommand → GitCommand × Bool
inline_value flag [] next g = last_value flag next g
inline_value flag (c ∷ value) next g =
    (record g { flag_map = insert flag (c ∷ value) g.flag_map }, false)

-- The letters after the dash, some bytes of which still belong to the rune before.
unfoldable pub combined_flags : ℕ → Str → (next : Option Str) → GitCommand → GitCommand × Bool
unfolding takes_value rune_flag
combined_flags skip [] next g = (g, false)
combined_flags (suc skip) (b ∷ letters) next g = combined_flags skip letters next g
combined_flags zero (b ∷ letters) next g =
    let flag = rune_flag (b ∷ letters) in
    let others = combined_flags (rune_width (b ∷ letters) - 1) letters next in
    if takes_value flag
    then inline_value flag letters next (with_flag flag g)
    else others (with_flag flag g)

unfoldable pub parse_arg : Str → (next : Option Str) → GitCommand → GitCommand × Bool
unfolding add_flag combined_flags
parse_arg arg next g =
    if not (has_prefix arg (codes "-"))
    then (record g { args = g.args ++ arg ∷ [] }, false)
    else if has_prefix arg (codes "--") || length arg == 2
    then add_flag arg next g
    else combined_flags 0 (drop 1 arg) next g

-- The arguments after the subcommand, of which the first may be a value that is read already.
unfoldable pub parse_args : (skip : Bool) → List Str → GitCommand → GitCommand
unfolding parse_arg
parse_args skip [] g = g
parse_args true (value ∷ rest) g = parse_args false rest g
parse_args false (arg ∷ rest) g =
    let (g', skip) = parse_arg arg (head? rest) g in parse_args skip rest g'

abbrev pub parse_subcommand : (working_directory : Str) → Options × List Str → GitResult GitCommand
unfolding parse_args
parse_subcommand working_directory (options, []) = error no_subcommand
parse_subcommand working_directory (options, subcommand ∷ rest) = parsed (
    parse_args false rest (record {
      subcommand = subcommand;
      flags = [];
      args = [];
      flag_map = [];
      global_options = options;
      working_directory = working_directory;
    }))

unfoldable pub parse_git_command : Command → GitResult GitCommand
unfolding parse_subcommand parse_global_options
parse_git_command cmd =
    if str_eq cmd.name (codes "git")
    then parse_subcommand cmd.working_directory (parse_global_options cmd.args [])
    else error not_git_command
