-- ===== src/CommandParser/Git/Globals.antt =====
-- Global options in front of the subcommand of a git command (parseGlobalOptions of git.go).
use klaudiush.Prelude.{◌≡◌, true, false, List, [], ◌∷◌, ◌++◌, All}
use klaudiush.Prelude.Bytes.{Str, codes, has_prefix}
use klaudiush.Prelude.Maps.{insert}
use klaudiush.CommandParser.Git.{Options, global_arg, known_option, no_option, parse_global_options}

abbrev pub insert_all : Options → Options → Options
insert_all [] options = options
insert_all ((name, value) ∷ globals) options = insert_all globals (insert name value options)

abbrev pub render_globals : Options → List Str
render_globals [] = []
render_globals ((name, value) ∷ globals) = name ∷ value ∷ render_globals globals

-- An option in front of the subcommand whose value is the next argument.
abbrev pub IsGlobal : Str × Str → Type 0
IsGlobal (name, value) = global_arg name ≡ known_option true

global_arg-argument : (s : Str) → has_prefix s (codes "-") ≡ false → global_arg s ≡ no_option
unfolding global_arg
global_arg-argument s h = simp (global_arg, h)

parse_global_options-stop :
    (sub : Str) (rest : List Str) (options : Options)
    → has_prefix sub (codes "-") ≡ false
    → parse_global_options (sub ∷ rest) options ≡ (options, sub ∷ rest)
unfolding parse_global_options global_arg has_prefix codes
parse_global_options-stop sub [] options h = simp (global_arg-argument sub h)
parse_global_options-stop sub (next ∷ rest) options h = simp (global_arg-argument sub h)

pub parse_global_options-render :
    (globals : Options) (sub : Str) (rest : List Str) (options : Options)
    → All IsGlobal globals
    → has_prefix sub (codes "-") ≡ false
    → parse_global_options (render_globals globals ++ sub ∷ rest) options
      ≡ (insert_all globals options, sub ∷ rest)
unfolding parse_global_options global_arg insert has_prefix codes
parse_global_options-render [] sub rest options a h = parse_global_options-stop sub rest options h
parse_global_options-render ((name, value) ∷ globals) sub rest options (i, a) h =
    simp (i) (parse_global_options-render globals sub rest (insert name value options) a h)
