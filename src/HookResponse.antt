-- ===== src/HookResponse.antt =====
-- internal/hookresponse: the response to a hook. builder.go: the responses for each client.
pub mod Answers
pub mod Text
pub mod Wording
pub mod Denials
pub mod Tests
use klaudiush.Prelude.{
  Bool, true, false, not, Option, none, some, List, [], ◌∷◌, filter, ◌&&◌, ◌||◌, if◌then◌else◌,
}
use klaudiush.Prelude.Bytes.{Str, codes, is_empty}
use klaudiush.Hook.{Context, Provider, CanonicalEvent, is_elicitation_event}
use klaudiush.Dispatcher.Errors.{ValidationError}
use klaudiush.Hook.Names.{event_name}
use klaudiush.HookResponse.Wording.{
  format_decision_reason, format_additional_context, format_system_message,
}
use klaudiush.Prelude.{ℕ}
use klaudiush.HookResponse.Answers.{
  HookSpecificOutput, HookAnswer, NamedContext, CodexAnswer, GeminiAnswer, ElicitationAnswer,
  Answer, no_answer, hook_answer, codex_answer, gemini_answer, elicitation_answer,
}

abbrev pub is_codex : Provider → Bool
is_codex Provider.codex = true
is_codex _ = false

abbrev pub is_gemini : Provider → Bool
is_gemini Provider.gemini = true
is_gemini _ = false

abbrev pub is_claude : Provider → Bool
is_claude Provider.claude = true
is_claude _ = false

abbrev pub is_after_tool : CanonicalEvent → Bool
is_after_tool CanonicalEvent.after_tool = true
is_after_tool _ = false

abbrev pub is_turn_stop : CanonicalEvent → Bool
is_turn_stop CanonicalEvent.turn_stop = true
is_turn_stop _ = false

abbrev pub is_session_start : CanonicalEvent → Bool
is_session_start CanonicalEvent.session_start = true
is_session_start _ = false

-- The events for which Gemini is told nothing but the message.
abbrev pub is_silent : CanonicalEvent → Bool
is_silent CanonicalEvent.turn_stop = true
is_silent CanonicalEvent.notification = true
is_silent CanonicalEvent.pre_compress = true
is_silent CanonicalEvent.post_compact = true
is_silent _ = false

abbrev pub has_any : List ValidationError → Bool
has_any [] = false
has_any (e ∷ errs) = true

unfoldable pub is_blocking : ValidationError → Bool
is_blocking e = not e.bypassed && e.should_block

unfoldable pub is_warning : ValidationError → Bool
is_warning e = not e.bypassed && not e.should_block

unfoldable pub named_context : Context → Str → Option NamedContext
named_context ctx [] = none
named_context ctx (c ∷ text) =
    some (record { hook_event_name = event_name ctx; additional_context = c ∷ text })

unfoldable pub after_tool_output : Context → Str → Option HookSpecificOutput
after_tool_output ctx [] = none
after_tool_output ctx (c ∷ text) = some (record {
  hook_event_name = event_name ctx;
  permission_decision = [];
  permission_decision_reason = [];
  additional_context = c ∷ text;
})

module _ (is_plain : ℕ → Bool) (visit : List (Str × Str) → List (Str × Str))
    (pattern_warnings : List Str) where
  -- `categorize` gives these three, and the builders take them.
  abbrev pub system : List ValidationError → Str
  system errs = format_system_message is_plain visit errs

  abbrev output : (event_name decision reason context : Str) → Option HookSpecificOutput
  output event_name decision reason context = some (record {
    hook_event_name = event_name;
    permission_decision = decision;
    permission_decision_reason = reason;
    additional_context = context;
  })

  unfoldable pub permission_output :
      (event_name : Str)
      → (blocking warnings bypassed : List ValidationError) → Option HookSpecificOutput
  unfolding format_additional_context format_decision_reason
  permission_output event_name blocking warnings bypassed =
      if has_any blocking
      then output event_name (codes "deny") (format_decision_reason is_plain blocking)
          (format_additional_context blocking warnings bypassed pattern_warnings)
      else if has_any bypassed
      then output event_name (codes "allow") [] (format_additional_context [] warnings bypassed [])
      else if has_any warnings
      then output event_name (codes "allow") [] (format_additional_context [] warnings [] [])
      else none

  module _ (errs : List ValidationError) where
    abbrev pub blocking : List ValidationError
    blocking = filter is_blocking errs

    abbrev pub warnings : List ValidationError
    warnings = filter is_warning errs

    abbrev pub bypassed : List ValidationError
    bypassed = filter (λ e. e.bypassed) errs

    abbrev pub context_text : Str
    context_text = format_additional_context blocking warnings bypassed pattern_warnings

    abbrev if_blocking : Str → Str
    if_blocking text = if has_any blocking then text else []

    -- `BuildWithPatterns`, for some errors.
    unfoldable pub build_with_patterns : (event_name : Str) → HookAnswer
    unfolding permission_output format_system_message
    build_with_patterns event_name = record {
      hook_specific_output = permission_output event_name blocking warnings bypassed;
      decision = [];
      reason = [];
      system_message = system errs;
    }

    unfoldable pub build_claude_after_tool : Context → HookAnswer
    unfolding after_tool_output format_decision_reason format_system_message
    build_claude_after_tool ctx = record {
      hook_specific_output = after_tool_output ctx context_text;
      decision = if_blocking (codes "block");
      reason = if_blocking (format_decision_reason is_plain blocking);
      system_message = system errs;
    }

    abbrev codex_context : Context → CodexAnswer
    unfolding named_context
    codex_context ctx = record {
      continue = true;
      hook_specific_output = named_context ctx context_text;
      decision = [];
      reason = [];
      stop_reason = [];
      system_message = system errs;
    }

    -- The session start and the default.
    abbrev codex_stop : Context → CodexAnswer
    unfolding codex_context
    codex_stop ctx =
        if has_any blocking
        then record {
          continue = false;
          hook_specific_output = none;
          decision = [];
          reason = [];
          stop_reason = format_decision_reason is_plain blocking;
          system_message = system errs;
        }
        else codex_context ctx

    abbrev codex_turn_stop : CodexAnswer
    codex_turn_stop = record {
      continue = true;
      hook_specific_output = none;
      decision = if_blocking (codes "block");
      reason = if_blocking (format_decision_reason is_plain blocking);
      stop_reason = [];
      system_message = system errs;
    }

    unfoldable pub build_codex : Context → CodexAnswer
    unfolding codex_stop codex_context
    build_codex ctx =
        if is_turn_stop ctx.event
        then codex_turn_stop
        else if is_after_tool ctx.event
        then codex_context ctx
        else codex_stop ctx

    abbrev gemini_plain : Option NamedContext → GeminiAnswer
    gemini_plain hook_specific_output = record {
      hook_specific_output = hook_specific_output;
      decision = [];
      reason = [];
      system_message = system errs;
    }

    -- Before a tool and the default.
    abbrev gemini_deny : Context → GeminiAnswer
    unfolding named_context
    gemini_deny ctx =
        if has_any blocking
        then record {
          hook_specific_output = none;
          decision = codes "deny";
          reason = format_decision_reason is_plain blocking;
          system_message = system errs;
        }
        else gemini_plain (named_context ctx context_text)

    unfoldable pub build_gemini : Context → GeminiAnswer
    unfolding gemini_deny named_context
    build_gemini ctx =
        if is_after_tool ctx.event || is_session_start ctx.event
        then gemini_plain (named_context ctx context_text)
        else if is_silent ctx.event
        then gemini_plain none
        else gemini_deny ctx

    unfoldable pub build_elicitation : Option ElicitationAnswer
    build_elicitation =
        if has_any blocking
        then some (record { action = codes "decline"; system_message = system errs })
        else none

    -- `BuildForContext` of a context that is there, for some errors.
    unfoldable pub build_some : Context → Answer
    unfolding build_codex build_gemini build_elicitation build_claude_after_tool build_with_patterns
        is_elicitation_event event_name
    build_some ctx =
        if is_codex ctx.provider
        then codex_answer (build_codex ctx)
        else if is_gemini ctx.provider
        then gemini_answer (build_gemini ctx)
        else if is_elicitation_event ctx
        then elicitation_answer build_elicitation
        else if is_claude ctx.provider && is_after_tool ctx.event
        then hook_answer (build_claude_after_tool ctx)
        else hook_answer (build_with_patterns (event_name ctx))

    abbrev build_with : Option Context → Answer
    unfolding build_some build_with_patterns
    build_with none = hook_answer (build_with_patterns [])
    build_with (some ctx) = build_some ctx

  unfoldable pub build_for_context : Option Context → List ValidationError → Answer
  unfolding build_with
  build_for_context ctx [] = no_answer
  build_for_context ctx (e ∷ errs) = build_with (e ∷ errs) ctx
