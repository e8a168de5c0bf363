-- ===== src/Hook/Tests.antt =====
-- Runs at concrete hooks.
use klaudiush.Prelude.{◌≡◌, ◌≢◌, []}
use klaudiush.Prelude.Unicode.{ascii_only}
use klaudiush.Hook.{Provider, CanonicalEvent}
use klaudiush.Hook.Metadata.{normalize_event_name, provider_event}
use klaudiush.Hook.Metadata.Laws.{normalize_event_name-provider_event}
use klaudiush.Hook.Names.{event_names, tool_names}
use klaudiush.Hook.Names.Laws.{IsUnique, names-IsUnique}
use klaudiush.Exceptions.Tests.{context}

shown : provider_event Provider.codex CanonicalEvent.before_tool ≢ []
unfolding provider_event
shown h = cc h

normalize_event_name-provider_event_example :
    normalize_event_name ascii_only (provider_event Provider.codex CanonicalEvent.before_tool)
    ≡ CanonicalEvent.unknown
normalize_event_name-provider_event_example =
    normalize_event_name-provider_event ascii_only Provider.codex CanonicalEvent.before_tool shown

names-IsUnique_example :
    IsUnique ascii_only (event_names ascii_only context)
    × IsUnique ascii_only (tool_names ascii_only context)
names-IsUnique_example = names-IsUnique ascii_only context
