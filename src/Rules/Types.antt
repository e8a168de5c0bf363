-- ===== src/Rules/Types.antt =====
-- internal/rules/types.go: rules and the contexts that they are matched against.
use klaudiush.Prelude.{Bool, Option, List}
use klaudiush.Prelude.Bytes.{Str, codes}
use klaudiush.Prelude.Int.{ℤ}
use klaudiush.Hook.{Context}

-- `type ActionType string`: a configuration may hold any text.
abbrev pub ActionType : Type 0
ActionType = Str

abbrev pub action_block : ActionType
action_block = codes "block"

abbrev pub action_warn : ActionType
action_warn = codes "warn"

abbrev pub action_allow : ActionType
action_allow = codes "allow"

-- `type ValidatorType string`
abbrev pub ValidatorType : Type 0
ValidatorType = Str

abbrev pub validator_all : ValidatorType
validator_all = codes "*"

pub record RuleMatch : Type 0 where
  pub validator_type : ValidatorType
  pub provider : Str
  pub repo_pattern : Str
  pub repo_patterns : List Str
  pub remote : Str
  pub branch_pattern : Str
  pub branch_patterns : List Str
  pub file_pattern : Str
  pub file_patterns : List Str
  pub content_pattern : Str
  pub content_patterns : List Str
  pub command_pattern : Str
  pub command_patterns : List Str
  pub tool_type : Str
  pub event_type : Str
  pub case_insensitive : Bool
  pub pattern_mode : Str

pub record RuleAction : Type 0 where
  pub type : ActionType
  pub message : Str
  pub reference : Str

pub record Rule : Type 0 where
  pub name : Str
  pub description : Str
  pub enabled : Bool
  pub priority : ℤ
  pub conditions : Option RuleMatch
  pub action : Option RuleAction

pub record RuleResult : Type 0 where
  pub matched : Bool
  pub rule : Option Rule
  pub action : ActionType
  pub message : Str
  pub reference : Str

pub record GitContext : Type 0 where
  pub repo_root : Str
  pub remote : Str
  pub branch : Str
  pub is_in_repo : Bool

pub record FileContext : Type 0 where
  pub path : Str
  pub content : Str

pub record MatchContext : Type 0 where
  pub hook_context : Option Context
  pub git_context : Option GitContext
  pub file_context : Option FileContext
  pub validator_type : ValidatorType
  pub command : Str
