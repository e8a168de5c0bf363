-- ===== src/CommandParser/Git/Rendered.antt =====
-- A git command that is written out from its parts is parsed back to them.
use mathlib.Core.List.{append-nil, append_assoc}
use klaudiush.Prelude.{
  ◌≡◌, refl, sym, ap, ◌∙◌, Bool, true, false, ◌||◌, Option, none, some, List, [], ◌∷◌, ◌++◌, length,
  ◌==◌, All, arith, if◌then◌else◌,
}
use klaudiush.Prelude.Bytes.{Str, codes, str_eq, has_prefix}
use klaudiush.Prelude.Bytes.Laws.{str_eq_refl, str_eq_iff}
use klaudiush.Prelude.Maps.{lookup, lookup-insert}
use klaudiush.CommandParser.{Command}
use klaudiush.CommandParser.Git.{
  GitCommand, parsed, parse_subcommand, Options, takes_value, set_first, with_flag, add_flag,
  parse_arg, parse_args, parse_git_command,
}
use klaudiush.CommandParser.Git.Globals.{
  insert_all, render_globals, IsGlobal, parse_global_options-render,
}

-- What stands after the subcommand: an argument, a flag, a flag with its value, or a value that is the
-- flag's before it.
pub data Item : Type 0 where
  argument : Str → Item
  lone_flag : Str → Item
  valued_flag : (flag value : Str) → Item

-- A long flag, or a dash and a letter.
abbrev pub IsFlag : Str → Type 0
IsFlag f =
    (has_prefix f (codes "-") ≡ true) × ((has_prefix f (codes "--") || (length f == 2)) ≡ true)

abbrev pub IsItem : Item → Type 0
IsItem (argument s) = has_prefix s (codes "-") ≡ false
IsItem (lone_flag f) = IsFlag f × (takes_value f ≡ false)
IsItem (valued_flag f v) = IsFlag f × (takes_value f ≡ true)

abbrev pub render : List Item → List Str
render [] = []
render (argument s ∷ items) = s ∷ render items
render (lone_flag f ∷ items) = f ∷ render items
render (valued_flag f v ∷ items) = f ∷ v ∷ render items

abbrev pub flags_of : List Item → List Str
flags_of [] = []
flags_of (argument s ∷ items) = flags_of items
flags_of (lone_flag f ∷ items) = f ∷ flags_of items
flags_of (valued_flag f v ∷ items) = f ∷ flags_of items

abbrev pub arguments_of : List Item → List Str
arguments_of [] = []
arguments_of (argument s ∷ items) = s ∷ arguments_of items
arguments_of (lone_flag f ∷ items) = arguments_of items
arguments_of (valued_flag f v ∷ items) = arguments_of items

-- The first value that is given for a flag.
abbrev pub first_value : Str → List Item → Option Str
first_value flag [] = none
first_value flag (argument s ∷ items) = first_value flag items
first_value flag (lone_flag f ∷ items) = first_value flag items
first_value flag (valued_flag f v ∷ items) =
    if str_eq f flag then some v else first_value flag items

add_item : Item → GitCommand → GitCommand
add_item (argument s) g = record g { args = g.args ++ s ∷ [] }
add_item (lone_flag f) g = with_flag f g
add_item (valued_flag f v) g = record (with_flag f g) { flag_map = set_first f v g.flag_map }

add_items : List Item → GitCommand → GitCommand
add_items [] g = g
add_items (item ∷ items) g = add_items items (add_item item g)

parse_arg-argument :
    (s : Str) (next : Option Str) (g : GitCommand)
    → has_prefix s (codes "-") ≡ false
    → parse_arg s next g ≡ (add_item (argument s) g, false)
unfolding parse_arg add_item
parse_arg-argument s next g h = simp (parse_arg, h)

parse_arg-flag :
    (f : Str) (next : Option Str) (g : GitCommand)
    → IsFlag f
    → parse_arg f next g ≡ add_flag f next g
unfolding parse_arg
parse_arg-flag f next g (dash, single) = simp (parse_arg, dash, single)

add_flag-lone :
    (f : Str) (next : Option Str) (g : GitCommand)
    → takes_value f ≡ false
    → add_flag f next g ≡ (add_item (lone_flag f) g, false)
unfolding add_flag add_item
add_flag-lone f none g h = refl
add_flag-lone f (some v) g h = simp (h)

add_flag-valued :
    (f v : Str) (g : GitCommand)
    → takes_value f ≡ true
    → add_flag f (some v) g ≡ (add_item (valued_flag f v) g, true)
unfolding add_flag add_item
add_flag-valued f v g h = simp (h)

-- The rest of the parsing.
abbrev parse_rest : List Str → GitCommand × Bool → GitCommand
parse_rest rest (g, skip) = parse_args skip rest g

parse_args-render :
    (items : List Item) (g : GitCommand)
    → All IsItem items
    → parse_args false (render items) g ≡ add_items items g
unfolding parse_args add_items
parse_args-render [] g a = refl
parse_args-render (argument s ∷ items) g (i, a) =
    ap (parse_rest (render items)) (parse_arg-argument s _ g i) ∙ parse_args-render items _ a
parse_args-render (lone_flag f ∷ items) g ((i, lone), a) =
    ap (parse_rest (render items)) (parse_arg-flag f _ g i ∙ add_flag-lone f _ g lone)
    ∙ parse_args-render items _ a
parse_args-render (valued_flag f v ∷ items) g ((i, valued), a) =
    ap (parse_rest (v ∷ render items))
      (parse_arg-flag f (some v) g i ∙ add_flag-valued f v g valued)
    ∙ parse_args-render items _ a

arguments-add_items :
    (items : List Item) (g : GitCommand) → (add_items items g).args ≡ g.args ++ arguments_of items
unfolding add_items add_item
arguments-add_items [] g = sym (append-nil g.args)
arguments-add_items (argument s ∷ items) g =
    arguments-add_items items _ ∙ append_assoc g.args (s ∷ []) (arguments_of items)
arguments-add_items (lone_flag f ∷ items) g = arguments-add_items items _
arguments-add_items (valued_flag f v ∷ items) g = arguments-add_items items _

flags-add_items :
    (items : List Item) (g : GitCommand) → (add_items items g).flags ≡ g.flags ++ flags_of items
unfolding add_items add_item
flags-add_items [] g = sym (append-nil g.flags)
flags-add_items (argument s ∷ items) g = flags-add_items items _
flags-add_items (lone_flag f ∷ items) g =
    flags-add_items items _ ∙ append_assoc g.flags (f ∷ []) (flags_of items)
flags-add_items (valued_flag f v ∷ items) g =
    flags-add_items items _ ∙ append_assoc g.flags (f ∷ []) (flags_of items)

-- The first of two that is there.
abbrev or_else : Option Str → Option Str → Option Str
or_else none o = o
or_else (some v) o = some v

or_else-none : (o : Option Str) → o ≡ or_else o none
or_else-none none = refl
or_else-none (some v) = refl

or_else-if :
    (o : Option Str) (b : Bool) (v : Str) (p : Option Str)
    → or_else (or_else o (if b then some v else none)) p ≡ or_else o (if b then some v else p)
or_else-if (some w) b v p = refl
or_else-if none true v p = refl
or_else-if none false v p = refl

lookup-set_first :
    (flag f v : Str) (m : Options)
    → lookup flag (set_first f v m)
      ≡ or_else (lookup flag m) (if str_eq f flag then some v else none)
unfolding set_first
lookup-set_first flag f v m =
    ground (arith, str_eq_iff f flag, lookup-insert f flag v m, lookup flag m)

first_value-add_items :
    (flag : Str) (items : List Item) (g : GitCommand)
    → lookup flag (add_items items g).flag_map
      ≡ or_else (lookup flag g.flag_map) (first_value flag items)
unfolding add_items add_item
first_value-add_items flag [] g = or_else-none (lookup flag g.flag_map)
first_value-add_items flag (argument s ∷ items) g = first_value-add_items flag items _
first_value-add_items flag (lone_flag f ∷ items) g = first_value-add_items flag items _
first_value-add_items flag (valued_flag f v ∷ items) g =
    first_value-add_items flag items _
    ∙ ap (λ o. or_else o (first_value flag items)) (lookup-set_first flag f v g.flag_map)
    ∙ or_else-if (lookup flag g.flag_map) (str_eq f flag) v (first_value flag items)

add_items-kept :
    (items : List Item) (g : GitCommand)
    → ((add_items items g).subcommand ≡ g.subcommand)
      × ((add_items items g).global_options ≡ g.global_options)
      × ((add_items items g).working_directory ≡ g.working_directory)
unfolding add_items add_item
add_items-kept [] g = (refl, refl, refl)
add_items-kept (argument s ∷ items) g = add_items-kept items _
add_items-kept (lone_flag f ∷ items) g = add_items-kept items _
add_items-kept (valued_flag f v ∷ items) g = add_items-kept items _

abbrev started : Str → Options → Str → GitCommand
started subcommand options directory = record {
  subcommand = subcommand;
  flags = [];
  args = [];
  flag_map = [];
  global_options = options;
  working_directory = directory;
}

parse_git_command-added :
    (cmd : Command) (globals : Options) (subcommand : Str) (items : List Item)
    → cmd.name ≡ codes "git"
    → cmd.args ≡ render_globals globals ++ subcommand ∷ render items
    → All IsGlobal globals
    → has_prefix subcommand (codes "-") ≡ false
    → All IsItem items
    → parse_git_command cmd
      ≡ parsed (add_items items (started subcommand (insert_all globals []) cmd.working_directory))
unfolding parse_git_command parse_subcommand
parse_git_command-added cmd globals subcommand items named given a h b =
    simp
      (
        parse_git_command,
        named,
        given,
        str_eq_refl (codes "git"),
        parse_global_options-render globals subcommand (render items) [] a h,
      )
      (ap parsed (parse_args-render items _ b))

-- A git command with global options in front of the subcommand, each with its value in the next
-- argument, and with arguments, flags without a value and flags with their value in the next argument
-- after it: the parser gives back the subcommand, the arguments and the flags in their order, the first
-- value of each flag, and the last of each global option.
pub parse_git_command-render :
    (cmd : Command) (globals : Options) (subcommand : Str) (items : List Item)
    → cmd.name ≡ codes "git"
    → cmd.args ≡ render_globals globals ++ subcommand ∷ render items
    → All IsGlobal globals
    → has_prefix subcommand (codes "-") ≡ false
    → All IsItem items
    → (g : GitCommand) × (parse_git_command cmd ≡ parsed g)
      × (g.subcommand ≡ subcommand)
      × (g.args ≡ arguments_of items)
      × (g.flags ≡ flags_of items)
      × ((flag : Str) → lookup flag g.flag_map ≡ first_value flag items)
      × (g.global_options ≡ insert_all globals [])
      × (g.working_directory ≡ cmd.working_directory)
unfolding parse_git_command lookup
parse_git_command-render cmd globals subcommand items named given a h b =
    let g = started subcommand (insert_all globals []) cmd.working_directory in
    let (same_subcommand, same_options, same_directory) = add_items-kept items g in
    (
      add_items items g,
      parse_git_command-added cmd globals subcommand items named given a h b,
      same_subcommand,
      arguments-add_items items g,
      flags-add_items items g,
      λ flag. first_value-add_items flag items g,
      same_options,
      same_directory,
    )
