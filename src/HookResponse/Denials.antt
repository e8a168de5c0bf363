-- ===== src/HookResponse/Denials.antt =====
-- When the response stops the client (builder.go).
use klaudiush.Prelude.{
  ℕ, Bool, true, false, not, ◌||◌, Option, none, some, List, filter, if◌then◌else◌,
}
use klaudiush.Prelude.Bytes.{Str, codes, str_eq}
use klaudiush.Hook.{Context}
use klaudiush.Dispatcher.Errors.{ValidationError}
use klaudiush.HookResponse.Answers.{
  HookSpecificOutput, Answer, no_answer, hook_answer, codex_answer, gemini_answer,
  elicitation_answer,
}
use klaudiush.HookResponse.{
  is_blocking, has_any, is_codex, is_gemini, is_after_tool, is_session_start, is_silent,
}

abbrev output_denies : Option HookSpecificOutput → Bool
output_denies none = false
output_denies (some output) = str_eq output.permission_decision (codes "deny")

-- Whether the client that reads it stops.
unfoldable pub denies : Answer → Bool
unfolding str_eq codes
denies no_answer = false
denies (hook_answer a) = str_eq a.decision (codes "block") || output_denies a.hook_specific_output
denies (codex_answer a) = not a.continue || str_eq a.decision (codes "block")
denies (gemini_answer a) = str_eq a.decision (codes "deny")
denies (elicitation_answer none) = false
denies (elicitation_answer (some a)) = str_eq a.action (codes "decline")

-- The events for which a client can be stopped.
unfoldable pub can_deny : Option Context → Bool
can_deny none = true
can_deny (some ctx) =
    if is_codex ctx.provider
    then not (is_after_tool ctx.event)
    else if is_gemini ctx.provider
    then not (is_after_tool ctx.event || is_session_start ctx.event || is_silent ctx.event)
    else true

module _ (is_plain : ℕ → Bool) (visit : List (Str × Str) → List (Str × Str))
    (pattern_warnings : List Str) (errs : List ValidationError) where
  blocks : Bool
  blocks = has_any (filter is_blocking errs)
