-- ===== src/CommandParser/Tests.antt =====
-- Git commands as a shell script has them.
use klaudiush.Prelude.{◌≡◌, refl, Bool, Option, none, some, List, [], ◌∷◌, true}
use klaudiush.Prelude.Bytes.{Str, codes, str_eq, has_prefix, split_at}
use klaudiush.Prelude.Int.{ℤ, pos}
use klaudiush.Prelude.Maps.{lookup, insert}
use klaudiush.CommandParser.{Command, CmdType}
use klaudiush.CommandParser.Git.{
  GitCommand, GitResult, parsed, error, Options, parse_git_command, takes_value, global_arg,
}
use klaudiush.CommandParser.Gh.{GhResult, GhMergeCommand, refused, read, parse_gh_merge_command}
use klaudiush.CommandParser.Git.Flags.{extract_commit_message}
use klaudiush.CommandParser.Git.Globals.{insert_all}
use klaudiush.CommandParser.Git.Rendered.{
  Item, argument, lone_flag, valued_flag, flags_of, arguments_of, first_value,
  parse_git_command-render,
}

abbrev command : (args : List Str) → Command
command args = record {
  name = codes "git";
  args = args;
  location = record { line = 1; column = 1 };
  cmd_type = CmdType.simple;
  raw = [];
  working_directory = codes "/w";
}

abbrev globals : Options
globals = (codes "-C", codes "/repo") ∷ []

abbrev items : List Item
items =
    lone_flag (codes "-s")
    ∷ valued_flag (codes "-m") (codes "feat: a")
    ∷ valued_flag (codes "-m") (codes "body")
    ∷ argument (codes "a.go")
    ∷ []

abbrev commit : Command
commit = command (
    codes "-C"
    ∷ codes "/repo"
    ∷ codes "commit"
    ∷ codes "-s"
    ∷ codes "-m"
    ∷ codes "feat: a"
    ∷ codes "-m"
    ∷ codes "body"
    ∷ codes "a.go"
    ∷ [])

parse_git_command-render_example :
    (g : GitCommand) × (parse_git_command commit ≡ parsed g)
    × (g.subcommand ≡ codes "commit")
    × (g.args ≡ arguments_of items)
    × (g.flags ≡ flags_of items)
    × ((flag : Str) → lookup flag g.flag_map ≡ first_value flag items)
    × (g.global_options ≡ insert_all globals [])
    × (g.working_directory ≡ codes "/w")
unfolding has_prefix codes str_eq takes_value global_arg lookup
parse_git_command-render_example =
    parse_git_command-render commit globals (codes "commit") items refl refl (refl, tt) refl
      (((refl, refl), refl), (((refl, refl), refl), (((refl, refl), refl), (refl, tt))))

abbrev message_of : GitResult GitCommand → Str
message_of (error e) = []
message_of (parsed g) = extract_commit_message g

-- A message that is joined to its flag is not read.
joined_message :
    message_of (parse_git_command (command (codes "commit" ∷ codes "--message=a" ∷ []))) ≡ []
unfolding parse_git_command extract_commit_message lookup str_eq codes has_prefix global_arg
joined_message = refl

-- A later value of combined flags replaces the first one.
later_message :
    message_of (
      parse_git_command
        (command (codes "commit" ∷ codes "-m" ∷ codes "a" ∷ codes "-sm" ∷ codes "b" ∷ [])))
    ≡ codes "b"
unfolding parse_git_command extract_commit_message lookup insert str_eq codes has_prefix global_arg
later_message = refl

abbrev merge_command : Command
merge_command =
    record (command (
      codes "pr"
      ∷ codes "merge"
      ∷ codes "https://github.com/a/b/pull/17"
      ∷ codes "--squash"
      ∷ codes "-t"
      ∷ codes "feat: a"
      ∷ codes "--body=b=c"
      ∷ [])) { name = codes "gh" }

abbrev summary : GhResult GhMergeCommand → Option (ℤ × Bool × Str × Str)
summary (refused e) = none
summary (read c) = some (c.pr_number, c.squash, c.subject, c.body)

merge_command_read :
    summary (parse_gh_merge_command merge_command)
    ≡ some (pos 17, true, codes "feat: a", codes "b=c")
unfolding parse_gh_merge_command str_eq codes has_prefix split_at
merge_command_read = refl
