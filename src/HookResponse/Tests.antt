-- ===== src/HookResponse/Tests.antt =====
-- Responses to a commit that was refused.
use klaudiush.Prelude.{◌≡◌, refl, ℕ, Bool, true, false, none, some, List, [], ◌∷◌}
use klaudiush.Prelude.Bytes.{Str, codes, str_eq, has_prefix, contains, cut_suffix, after_last}
use klaudiush.Prelude.Bytes.Text.{trim_space, rune_width}
use klaudiush.Prelude.Maps.{lookup}
use klaudiush.Hook.{Context, Provider, CanonicalEvent, EventType, ToolType, ToolFamily}
use klaudiush.Dispatcher.Errors.{ValidationError}
use klaudiush.HookResponse.{is_blocking, build_for_context}
use klaudiush.HookResponse.Text.{summarize_message}
use klaudiush.HookResponse.Wording.{blocking_codes}
use klaudiush.HookResponse.Denials.{denies}

abbrev all_plain : ℕ → Bool
all_plain r = true

abbrev in_order : List (Str × Str) → List (Str × Str)
in_order details = details

abbrev refusal : ValidationError
refusal = record {
  validator = codes "validate-commit";
  message = codes "title is too long";
  details = (codes "all_codes", codes "GIT001, GIT004") ∷ [];
  should_block = true;
  reference = codes "https://klaudiu.sh/e/GIT004";
  fix_hint = codes "Shorten it";
  bypassed = false;
  bypass_reason = [];
}

abbrev before_bash : Provider → CanonicalEvent → Context
before_bash provider event = record {
  provider = provider;
  event = event;
  raw_event_name = [];
  event_type = EventType.pre_tool_use;
  raw_tool_name = codes "Bash";
  tool_family = ToolFamily.shell;
  tool_name = ToolType.bash;
  tool_input = record { command = codes "git commit"; file_path = []; path = []; content = [] };
  working_dir = [];
  session_id = [];
  affected_paths = [];
  mcp_server_name = none;
}

denied :
    denies (
      build_for_context all_plain in_order []
        (some (before_bash Provider.claude CanonicalEvent.before_tool))
        (refusal ∷ []))
    ≡ true
unfolding build_for_context denies is_blocking str_eq codes
denied = refl

both_codes : blocking_codes (refusal ∷ []) [] ≡ codes "GIT004" ∷ codes "GIT001" ∷ []
unfolding blocking_codes lookup str_eq codes trim_space after_last
both_codes = refl

summarized :
    summarize_message all_plain (codes "no remote:\n\nUse 'git remote'\n\nadd one")
    ≡ codes "no remote: add one"
unfolding summarize_message contains has_prefix codes trim_space cut_suffix rune_width
summarized = refl
