-- ===== src/Hook/Metadata.antt =====
-- pkg/hook/metadata.go: names of events and tools, provider by provider.
pub mod Laws
use klaudiush.Prelude.{
  Bool, not, ◌||◌, Option, none, some, List, [], ◌∷◌, ◌==◌, filter, any, if◌then◌else◌,
}
use klaudiush.Prelude.Bytes.{Str, codes, is_empty, str_eq}
use klaudiush.Prelude.Bytes.Text.{trim_space}
use klaudiush.Prelude.Unicode.{Unicode}
use klaudiush.Hook.{Provider, EventType, ToolType, CanonicalEvent, ToolFamily}

-- `EventType.String()`, generated by enumer.
unfoldable pub event_type_string : EventType → Str
unfolding codes
event_type_string EventType.unknown = codes "Unknown"
event_type_string EventType.pre_tool_use = codes "PreToolUse"
event_type_string EventType.post_tool_use = codes "PostToolUse"
event_type_string EventType.notification = codes "Notification"

-- `ToolType.String()`, generated by enumer.
unfoldable pub tool_type_string : ToolType → Str
unfolding codes
tool_type_string ToolType.unknown = codes "Unknown"
tool_type_string ToolType.bash = codes "Bash"
tool_type_string ToolType.write = codes "Write"
tool_type_string ToolType.edit = codes "Edit"
tool_type_string ToolType.multi_edit = codes "MultiEdit"
tool_type_string ToolType.grep = codes "Grep"
tool_type_string ToolType.read = codes "Read"
tool_type_string ToolType.glob = codes "Glob"

unfoldable pub provider_string : Provider → Str
unfolding codes
provider_string Provider.unknown = []
provider_string Provider.claude = codes "claude"
provider_string Provider.codex = codes "codex"
provider_string Provider.gemini = codes "gemini"

unfoldable pub canonical_string : CanonicalEvent → Str
unfolding codes
canonical_string CanonicalEvent.unknown = []
canonical_string CanonicalEvent.before_tool = codes "before_tool"
canonical_string CanonicalEvent.after_tool = codes "after_tool"
canonical_string CanonicalEvent.session_start = codes "session_start"
canonical_string CanonicalEvent.turn_stop = codes "turn_stop"
canonical_string CanonicalEvent.notification = codes "notification"
canonical_string CanonicalEvent.pre_compress = codes "pre_compress"
canonical_string CanonicalEvent.elicitation = codes "elicitation"
canonical_string CanonicalEvent.elicitation_result = codes "elicitation_result"
canonical_string CanonicalEvent.post_compact = codes "post_compact"

unfoldable pub family_string : ToolFamily → Str
unfolding codes
family_string ToolFamily.unknown = []
family_string ToolFamily.shell = codes "shell"
family_string ToolFamily.write = codes "write"
family_string ToolFamily.edit = codes "edit"
family_string ToolFamily.multi_edit = codes "multiedit"
family_string ToolFamily.grep = codes "grep"
family_string ToolFamily.read = codes "read"
family_string ToolFamily.glob = codes "glob"

-- The case of a switch over texts whose labels are listed.
abbrev one_of : Str → List Str → Bool
one_of s labels = any (λ l. str_eq s l) labels

module _ (u : Unicode) where
  -- Lower case, trimmed, with no `_`, `-` and blank.
  unfoldable pub normalize_token : Str → Str
  normalize_token s =
      filter (λ c. not (c == b'_' || (c == b'-' || c == 32))) (trim_space (u.to_lower s))

  unfoldable pub parse_provider : Str → Option Provider
  unfolding codes
  parse_provider s =
      let t = u.to_lower (trim_space s) in
      if one_of t ([] ∷ codes "claude" ∷ [])
      then some Provider.claude
      else if one_of t (codes "codex" ∷ [])
      then some Provider.codex
      else if one_of t (codes "gemini" ∷ [])
      then some Provider.gemini
      else none

-- The switch of `NormalizeEventName` on the normalised token.
unfoldable pub event_of_token : Str → CanonicalEvent
unfolding codes str_eq
event_of_token t =
    if one_of t (codes "beforetool" ∷ codes "pretooluse" ∷ [])
    then CanonicalEvent.before_tool
    else if one_of t (codes "aftertool" ∷ codes "posttooluse" ∷ codes "aftertooluse" ∷ [])
    then CanonicalEvent.after_tool
    else if one_of t (codes "sessionstart" ∷ [])
    then CanonicalEvent.session_start
    else if one_of t (codes "turnstop" ∷ codes "stop" ∷ codes "sessionend" ∷ [])
    then CanonicalEvent.turn_stop
    else if one_of t (codes "notification" ∷ [])
    then CanonicalEvent.notification
    else if one_of t (codes "precompress" ∷ [])
    then CanonicalEvent.pre_compress
    else if one_of t (codes "elicitation" ∷ [])
    then CanonicalEvent.elicitation
    else if one_of t (codes "elicitationresult" ∷ [])
    then CanonicalEvent.elicitation_result
    else if one_of t (codes "postcompact" ∷ codes "postcompress" ∷ [])
    then CanonicalEvent.post_compact
    else CanonicalEvent.unknown

unfoldable pub normalize_event_name : Unicode → Str → CanonicalEvent
unfolding event_of_token normalize_token
normalize_event_name u name = event_of_token (normalize_token u name)

unfoldable pub display_codex_event : CanonicalEvent → Str
unfolding codes
display_codex_event CanonicalEvent.elicitation = codes "Elicitation"
display_codex_event CanonicalEvent.elicitation_result = codes "ElicitationResult"
display_codex_event CanonicalEvent.session_start = codes "SessionStart"
display_codex_event CanonicalEvent.turn_stop = codes "Stop"
display_codex_event CanonicalEvent.after_tool = codes "AfterToolUse"
display_codex_event CanonicalEvent.notification = codes "Notification"
display_codex_event CanonicalEvent.before_tool = codes "BeforeToolUse"
display_codex_event _ = []

unfoldable pub display_gemini_event : CanonicalEvent → Str
unfolding codes
display_gemini_event CanonicalEvent.elicitation = codes "Elicitation"
display_gemini_event CanonicalEvent.elicitation_result = codes "ElicitationResult"
display_gemini_event CanonicalEvent.post_compact = codes "PostCompact"
display_gemini_event CanonicalEvent.before_tool = codes "BeforeTool"
display_gemini_event CanonicalEvent.after_tool = codes "AfterTool"
display_gemini_event CanonicalEvent.session_start = codes "SessionStart"
display_gemini_event CanonicalEvent.turn_stop = codes "SessionEnd"
display_gemini_event CanonicalEvent.notification = codes "Notification"
display_gemini_event CanonicalEvent.pre_compress = codes "PreCompress"
display_gemini_event _ = []

unfoldable pub display_claude_event : CanonicalEvent → Str
unfolding codes event_type_string
display_claude_event CanonicalEvent.elicitation = codes "Elicitation"
display_claude_event CanonicalEvent.elicitation_result = codes "ElicitationResult"
display_claude_event CanonicalEvent.before_tool = event_type_string EventType.pre_tool_use
display_claude_event CanonicalEvent.after_tool = event_type_string EventType.post_tool_use
display_claude_event CanonicalEvent.notification = event_type_string EventType.notification
display_claude_event _ = []

unfoldable pub provider_event : Provider → CanonicalEvent → Str
unfolding display_codex_event display_gemini_event display_claude_event
provider_event Provider.unknown event = []
provider_event Provider.codex event = display_codex_event event
provider_event Provider.gemini event = display_gemini_event event
provider_event Provider.claude event = display_claude_event event

abbrev fallback_name : EventType → Str
fallback_name EventType.unknown = []
fallback_name t = event_type_string t

unfoldable pub display_event_name : Provider → CanonicalEvent → EventType → Str
unfolding provider_event
display_event_name provider canonical fallback =
    if is_empty (provider_event provider canonical)
    then fallback_name fallback
    else provider_event provider canonical

unfoldable pub tool_family_from_tool_type : ToolType → ToolFamily
tool_family_from_tool_type ToolType.bash = ToolFamily.shell
tool_family_from_tool_type ToolType.write = ToolFamily.write
tool_family_from_tool_type ToolType.edit = ToolFamily.edit
tool_family_from_tool_type ToolType.multi_edit = ToolFamily.multi_edit
tool_family_from_tool_type ToolType.grep = ToolFamily.grep
tool_family_from_tool_type ToolType.read = ToolFamily.read
tool_family_from_tool_type ToolType.glob = ToolFamily.glob
tool_family_from_tool_type ToolType.unknown = ToolFamily.unknown

-- `ResolveLegacyEventType`
abbrev type_of_event : CanonicalEvent → EventType
type_of_event CanonicalEvent.before_tool = EventType.pre_tool_use
type_of_event CanonicalEvent.after_tool = EventType.post_tool_use
type_of_event CanonicalEvent.notification = EventType.notification
type_of_event _ = EventType.unknown

abbrev default_type : Provider → Str → EventType
default_type Provider.claude [] = EventType.pre_tool_use
default_type _ _ = EventType.unknown

abbrev or_type : EventType → EventType → EventType
or_type EventType.unknown t = t
or_type t _ = t

unfoldable pub resolve_legacy_event_type : Unicode → Provider → Str → EventType → EventType
unfolding normalize_event_name
resolve_legacy_event_type u provider raw fallback =
    or_type (type_of_event (normalize_event_name u raw))
      (or_type fallback (default_type provider raw))

unfoldable pub default_event_name : Provider → Str
unfolding event_type_string codes
default_event_name Provider.claude = event_type_string EventType.pre_tool_use
default_event_name Provider.gemini = codes "BeforeTool"
default_event_name _ = []

-- The map of enumer: each name and its lower case.
abbrev named : Str → Option ToolType
named s =
    if one_of s (codes "Unknown" ∷ codes "unknown" ∷ [])
    then some ToolType.unknown
    else if one_of s (codes "Bash" ∷ codes "bash" ∷ [])
    then some ToolType.bash
    else if one_of s (codes "Write" ∷ codes "write" ∷ [])
    then some ToolType.write
    else if one_of s (codes "Edit" ∷ codes "edit" ∷ [])
    then some ToolType.edit
    else if one_of s (codes "MultiEdit" ∷ codes "multiedit" ∷ [])
    then some ToolType.multi_edit
    else if one_of s (codes "Grep" ∷ codes "grep" ∷ [])
    then some ToolType.grep
    else if one_of s (codes "Read" ∷ codes "read" ∷ [])
    then some ToolType.read
    else if one_of s (codes "Glob" ∷ codes "glob" ∷ [])
    then some ToolType.glob
    else none

-- `ToolTypeString`, with `none` for its error.
unfoldable pub tool_type_of_string : Unicode → Str → Option ToolType
tool_type_of_string u s = elim (named s) [ some t ↦ some t | none ↦ named (u.to_lower s) ]

abbrev pub typed : Option ToolType → ToolType × ToolFamily
typed none = (ToolType.unknown, ToolFamily.unknown)
typed (some t) = (t, tool_family_from_tool_type t)

unfoldable pub resolve_tool_metadata : Unicode → Str → ToolType × ToolFamily
unfolding normalize_token tool_type_of_string tool_family_from_tool_type
resolve_tool_metadata u raw =
    let t = normalize_token u raw in
    if one_of t (
      codes "bash"
      ∷ codes "execcommand"
      ∷ codes "runusershellcommand"
      ∷ codes "runshellcommand"
      ∷ codes "shell"
      ∷ [])
    then (ToolType.bash, ToolFamily.shell)
    else if one_of t (codes "write" ∷ codes "writefile" ∷ [])
    then (ToolType.write, ToolFamily.write)
    else if one_of t (codes "edit" ∷ codes "applypatch" ∷ codes "replace" ∷ [])
    then (ToolType.edit, ToolFamily.edit)
    else if one_of t (codes "multiedit" ∷ codes "multifileedit" ∷ [])
    then (ToolType.multi_edit, ToolFamily.multi_edit)
    else if one_of t (codes "grep" ∷ codes "search" ∷ [])
    then (ToolType.grep, ToolFamily.grep)
    else if one_of t (codes "read" ∷ codes "readfile" ∷ codes "viewimage" ∷ [])
    then (ToolType.read, ToolFamily.read)
    else if one_of t (codes "glob" ∷ codes "listfiles" ∷ codes "ls" ∷ [])
    then (ToolType.glob, ToolFamily.glob)
    else typed (tool_type_of_string u raw)
