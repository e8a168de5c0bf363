-- ===== src/CommandParser.antt =====
-- pkg/parser: commands as the walk over a shell script gives them (command.go), and what is read from
-- their arguments.
pub mod Git
pub mod Gh
pub mod Files
pub mod Tests
use klaudiush.Prelude.{ℕ, List}
use klaudiush.Prelude.Bytes.{Str, codes}

pub data CmdType : Type 0 where
  simple pipe subshell cmd_subst chain : CmdType

unfoldable pub cmd_type_name : CmdType → Str
cmd_type_name simple = codes "Simple"
cmd_type_name pipe = codes "Pipe"
cmd_type_name subshell = codes "Subshell"
cmd_type_name cmd_subst = codes "CmdSubst"
cmd_type_name chain = codes "Chain"

pub record Location : Type 0 where
  pub line : ℕ
  pub column : ℕ

pub record Command : Type 0 where
  pub name : Str
  pub args : List Str
  pub location : Location
  pub cmd_type : CmdType
  pub raw : Str
  pub working_directory : Str
