-- ===== src/Hook.antt =====
-- pkg/hook/context.go and metadata.go: the hook context that every part reads. The string-typed
-- enumerations hold only their constants, so they are data types here.
pub mod Names
pub mod Metadata
pub mod Tests
use klaudiush.Prelude.{Bool, true, false, ◌||◌, Option, none, some, List, [], ◌∷◌, if◌then◌else◌}
use klaudiush.Prelude.Bytes.{Str, is_empty}

pub data Provider : Type 0 where
  unknown claude codex gemini : Provider

pub data EventType : Type 0 where
  unknown pre_tool_use post_tool_use notification : EventType

pub data ToolType : Type 0 where
  unknown bash write edit multi_edit grep read glob : ToolType

pub data CanonicalEvent : Type 0 where
  unknown before_tool after_tool session_start turn_stop notification pre_compress elicitation
        elicitation_result post_compact :
      CanonicalEvent

pub data ToolFamily : Type 0 where
  unknown shell write edit multi_edit grep read glob : ToolFamily

pub record ToolInput : Type 0 where
  pub command : Str
  pub file_path : Str
  pub path : Str
  pub content : Str

-- The fields that the modelled parts read.
pub record Context : Type 0 where
  pub provider : Provider
  pub event : CanonicalEvent
  pub raw_event_name : Str
  pub event_type : EventType
  pub raw_tool_name : Str
  pub tool_family : ToolFamily
  pub tool_name : ToolType
  pub tool_input : ToolInput
  pub working_dir : Str
  pub session_id : Str
  pub affected_paths : List Str
  pub mcp_server_name : Option Str

unfoldable pub get_command : Context → Str
get_command c = c.tool_input.command

abbrev first_or : List Str → Str → Str
first_or [] d = d
first_or (p ∷ ps) d = p

unfoldable pub get_file_path : Context → Str
get_file_path c =
    if is_empty c.tool_input.file_path
    then first_or c.affected_paths c.tool_input.path
    else c.tool_input.file_path

unfoldable pub get_content : Context → Str
get_content c = c.tool_input.content

unfoldable pub has_session_id : Context → Bool
has_session_id c = if is_empty c.session_id then false else true

abbrev pub is_shell_tool : ToolType → ToolFamily → Bool
is_shell_tool ToolType.bash family = true
is_shell_tool _ ToolFamily.shell = true
is_shell_tool _ _ = false

unfoldable pub is_bash_tool : Context → Bool
is_bash_tool c = is_shell_tool c.tool_name c.tool_family

abbrev writes_type : ToolType → Bool
writes_type ToolType.write = true
writes_type ToolType.edit = true
writes_type ToolType.multi_edit = true
writes_type _ = false

abbrev writes_family : ToolFamily → Bool
writes_family ToolFamily.write = true
writes_family ToolFamily.edit = true
writes_family ToolFamily.multi_edit = true
writes_family _ = false

unfoldable pub is_file_tool : Context → Bool
is_file_tool c = writes_type c.tool_name || writes_family c.tool_family

abbrev is_elicitation : CanonicalEvent → Bool
is_elicitation CanonicalEvent.elicitation = true
is_elicitation CanonicalEvent.elicitation_result = true
is_elicitation _ = false

unfoldable pub is_elicitation_event : Context → Bool
is_elicitation_event c = is_elicitation c.event

unfoldable pub get_mcp_server_name : Context → Str
get_mcp_server_name c = elim c.mcp_server_name [ none ↦ [] | some name ↦ name ]
