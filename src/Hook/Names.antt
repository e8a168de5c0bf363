-- ===== src/Hook/Names.antt =====
-- pkg/hook/context.go: the aliases of an event and of a tool, compared without case.
pub mod Laws
use klaudiush.Prelude.{Bool, List, [], ◌∷◌, ◌++◌, any, if◌then◌else◌}
use klaudiush.Prelude.Bytes.{Str, codes, is_empty}
use klaudiush.Prelude.Bytes.Text.{trim_space}
use klaudiush.Prelude.Unicode.{Unicode}
use klaudiush.Hook.{EventType, ToolType, CanonicalEvent, ToolFamily, Context}
use klaudiush.Hook.Metadata.{
  event_type_string, tool_type_string, provider_string, canonical_string, family_string,
  display_event_name,
}

unfoldable pub event_name : Context → Str
event_name c =
    if is_empty c.raw_event_name
    then display_event_name c.provider c.event c.event_type
    else c.raw_event_name

abbrev pub event_aliases : CanonicalEvent → List Str
event_aliases CanonicalEvent.unknown = []
event_aliases CanonicalEvent.before_tool = codes "PreToolUse" ∷ []
event_aliases CanonicalEvent.after_tool = codes "PostToolUse" ∷ codes "AfterToolUse" ∷ []
event_aliases CanonicalEvent.session_start = codes "SessionStart" ∷ []
event_aliases CanonicalEvent.turn_stop = codes "Stop" ∷ []
event_aliases CanonicalEvent.notification = codes "Notification" ∷ []
event_aliases CanonicalEvent.pre_compress = codes "PreCompress" ∷ []
event_aliases CanonicalEvent.elicitation = codes "Elicitation" ∷ []
event_aliases CanonicalEvent.elicitation_result = codes "ElicitationResult" ∷ []
event_aliases CanonicalEvent.post_compact = codes "PostCompact" ∷ codes "PostCompress" ∷ []

abbrev type_names : EventType → List Str
type_names EventType.unknown = []
type_names t = event_type_string t ∷ []

abbrev tool_type_names : ToolType → List Str
tool_type_names ToolType.unknown = []
tool_type_names t = tool_type_string t ∷ []

abbrev pub tool_aliases : ToolFamily → List Str
tool_aliases ToolFamily.unknown = []
tool_aliases ToolFamily.shell = codes "Bash" ∷ []
tool_aliases ToolFamily.write = codes "Write" ∷ []
tool_aliases ToolFamily.edit = codes "Edit" ∷ []
tool_aliases ToolFamily.multi_edit = codes "MultiEdit" ∷ []
tool_aliases ToolFamily.grep = codes "Grep" ∷ []
tool_aliases ToolFamily.read = codes "Read" ∷ []
tool_aliases ToolFamily.glob = codes "Glob" ∷ []

abbrev tool_type_or : ToolType → ToolFamily → Str
tool_type_or ToolType.unknown family = family_string family
tool_type_or t family = tool_type_string t

unfoldable pub tool_name_string : Context → Str
tool_name_string c =
    if is_empty c.raw_tool_name then tool_type_or c.tool_name c.tool_family else c.raw_tool_name

unfoldable pub provider_name : Context → Str
provider_name c = provider_string c.provider

-- The names that `EventNames` and `ToolNames` append, in the order of the calls.
abbrev pub event_candidates : Context → List Str
event_candidates c =
    (c.raw_event_name ∷ event_name c ∷ canonical_string c.event ∷ [])
    ++ (type_names c.event_type ++ event_aliases c.event)

abbrev pub tool_candidates : Context → List Str
tool_candidates c =
    (c.raw_tool_name ∷ tool_name_string c ∷ family_string c.tool_family ∷ [])
    ++ (tool_type_names c.tool_name ++ tool_aliases c.tool_family)

module _ (u : Unicode) where
  unfoldable pub append_unique_fold : List Str → Str → List Str
  append_unique_fold values value =
      if is_empty (trim_space value)
      then values
      else if any (λ existing. u.equal_fold existing value) values
      then values
      else values ++ value ∷ []

  -- The calls of `appendUniqueFold` in a row.
  unfoldable pub append_all : List Str → List Str → List Str
  unfolding append_unique_fold
  append_all values [] = values
  append_all values (v ∷ vs) = append_all (append_unique_fold values v) vs

  unfoldable pub event_names : Context → List Str
  unfolding append_all
  event_names c = append_all [] (event_candidates c)

  unfoldable pub tool_names : Context → List Str
  unfolding append_all
  tool_names c = append_all [] (tool_candidates c)

  unfoldable pub matches_provider : Context → Str → Bool
  matches_provider c provider = u.equal_fold (provider_name c) provider

  unfoldable pub matches_event_name : Context → Str → Bool
  matches_event_name c name = any (λ n. u.equal_fold n name) (event_names c)

  unfoldable pub matches_tool_name : Context → Str → Bool
  matches_tool_name c name = any (λ n. u.equal_fold n name) (tool_names c)
