-- ===== src/Hook/Metadata/Laws.antt =====
-- The names that providers display against the names that are understood.
use klaudiush.Prelude.{
  ◌≡◌, ◌≢◌, refl, ap, ◌∙◌, Bool, true, false, Option, none, some, if◌then◌else◌, ◌||◌, not, [],
  ◌==◌, filter, map,
}
use klaudiush.Prelude.Bytes.{Str, codes}
use klaudiush.Prelude.Bytes.Text.{trim_space}
use klaudiush.Prelude.Unicode.{Unicode, is_ascii, lower_byte}
use klaudiush.Hook.{Provider, CanonicalEvent, ToolType, ToolFamily}
use klaudiush.Hook.Metadata.{
  normalize_token, typed, tool_type_of_string, tool_family_from_tool_type, resolve_tool_metadata,
  event_of_token, normalize_event_name, display_codex_event, display_gemini_event,
  display_claude_event, provider_event, event_type_string,
}

module _ (u : Unicode) where
  abbrev ascii_token : Str → Str
  ascii_token s =
      filter (λ c. not (c == b'_' || (c == b'-' || c == 32))) (trim_space (map lower_byte s))

  normalize_event_name_ascii :
      (s : Str) → is_ascii s ≡ true → normalize_event_name u s ≡ event_of_token (ascii_token s)
  unfolding normalize_event_name normalize_token
  normalize_event_name_ascii s ascii =
      ap
        (λ (t : Str).
          event_of_token (filter (λ c. not (c == b'_' || (c == b'-' || c == 32))) (trim_space t)))
        (u.to_lower_ascii s ascii)

  abbrev RoundTrips : Str → CanonicalEvent → Type 0
  RoundTrips name event = name ≢ [] → normalize_event_name u name ≡ event

  by_bytes :
      (name : Str) (event : CanonicalEvent)
      → is_ascii name ≡ true
      → event_of_token (ascii_token name) ≡ event
      → RoundTrips name event
  by_bytes name event ascii same shown = normalize_event_name_ascii name ascii ∙ same

  blank : (event : CanonicalEvent) → RoundTrips [] event
  blank event shown = absurd (shown refl)

  claude : (event : CanonicalEvent) → RoundTrips (display_claude_event event) event
  unfolding display_claude_event event_type_string event_of_token trim_space codes
  claude CanonicalEvent.unknown = blank _
  claude CanonicalEvent.before_tool = by_bytes _ _ refl refl
  claude CanonicalEvent.after_tool = by_bytes _ _ refl refl
  claude CanonicalEvent.session_start = blank _
  claude CanonicalEvent.turn_stop = blank _
  claude CanonicalEvent.notification = by_bytes _ _ refl refl
  claude CanonicalEvent.pre_compress = blank _
  claude CanonicalEvent.elicitation = by_bytes _ _ refl refl
  claude CanonicalEvent.elicitation_result = by_bytes _ _ refl refl
  claude CanonicalEvent.post_compact = blank _

  gemini : (event : CanonicalEvent) → RoundTrips (display_gemini_event event) event
  unfolding display_gemini_event event_of_token trim_space codes
  gemini CanonicalEvent.unknown = blank _
  gemini CanonicalEvent.before_tool = by_bytes _ _ refl refl
  gemini CanonicalEvent.after_tool = by_bytes _ _ refl refl
  gemini CanonicalEvent.session_start = by_bytes _ _ refl refl
  gemini CanonicalEvent.turn_stop = by_bytes _ _ refl refl
  gemini CanonicalEvent.notification = by_bytes _ _ refl refl
  gemini CanonicalEvent.pre_compress = by_bytes _ _ refl refl
  gemini CanonicalEvent.elicitation = by_bytes _ _ refl refl
  gemini CanonicalEvent.elicitation_result = by_bytes _ _ refl refl
  gemini CanonicalEvent.post_compact = by_bytes _ _ refl refl

  -- What a Codex name is understood as: the name of the event before a tool is not understood.
  abbrev pub codex_understood : CanonicalEvent → CanonicalEvent
  codex_understood CanonicalEvent.before_tool = CanonicalEvent.unknown
  codex_understood event = event

  codex : (event : CanonicalEvent) → RoundTrips (display_codex_event event) (codex_understood event)
  unfolding display_codex_event event_of_token trim_space codes
  codex CanonicalEvent.unknown = blank _
  codex CanonicalEvent.before_tool = by_bytes _ _ refl refl
  codex CanonicalEvent.after_tool = by_bytes _ _ refl refl
  codex CanonicalEvent.session_start = by_bytes _ _ refl refl
  codex CanonicalEvent.turn_stop = by_bytes _ _ refl refl
  codex CanonicalEvent.notification = by_bytes _ _ refl refl
  codex CanonicalEvent.pre_compress = blank _
  codex CanonicalEvent.elicitation = by_bytes _ _ refl refl
  codex CanonicalEvent.elicitation_result = by_bytes _ _ refl refl
  codex CanonicalEvent.post_compact = blank _

  -- What a provider's name of an event is understood as.
  abbrev pub understood : Provider → CanonicalEvent → CanonicalEvent
  understood Provider.codex event = codex_understood event
  understood _ event = event

  -- A name that a provider displays for an event is understood as that event again, but for the one
  -- of Codex before a tool, which is understood as no event.
  pub normalize_event_name-provider_event :
      (provider : Provider) (event : CanonicalEvent)
      → provider_event provider event ≢ []
      → normalize_event_name u (provider_event provider event) ≡ understood provider event
  unfolding provider_event
  normalize_event_name-provider_event Provider.unknown event = blank event
  normalize_event_name-provider_event Provider.claude event = claude event
  normalize_event_name-provider_event Provider.codex event = codex event
  normalize_event_name-provider_event Provider.gemini event = gemini event

  typed_consistent : (o : Option ToolType) → (typed o).1 ≡ tool_family_from_tool_type (typed o).0
  unfolding tool_family_from_tool_type
  typed_consistent none = refl
  typed_consistent (some t) = refl

  choose_consistent :
      (b : Bool) (t : ToolType) (rest : ToolType × ToolFamily)
      → rest.1 ≡ tool_family_from_tool_type rest.0
      → (if b then (t, tool_family_from_tool_type t) else rest).1
        ≡ tool_family_from_tool_type (if b then (t, tool_family_from_tool_type t) else rest).0
  choose_consistent true t rest h = refl
  choose_consistent false t rest h = h

  -- The tool type and the tool family that `ResolveToolMetadata` finds for a name belong together.
  pub resolve_tool_metadata_consistent :
      (raw : Str)
      → (resolve_tool_metadata u raw).1 ≡ tool_family_from_tool_type (resolve_tool_metadata u raw).0
  unfolding resolve_tool_metadata tool_family_from_tool_type
  resolve_tool_metadata_consistent raw = choose_consistent _ ToolType.bash _ (
      choose_consistent _ ToolType.write _ (
        choose_consistent _ ToolType.edit _ (
          choose_consistent _ ToolType.multi_edit _ (
            choose_consistent _ ToolType.grep _ (
              choose_consistent _ ToolType.read _ (
                choose_consistent _ ToolType.glob _
                  (typed_consistent (tool_type_of_string u raw))))))))
