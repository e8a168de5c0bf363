-- ===== src/HookResponse/Answers.antt =====
-- internal/hookresponse/response.go: the responses, without the fields that are never set.
use klaudiush.Prelude.{Bool, Option}
use klaudiush.Prelude.Bytes.{Str}

-- An empty text stands for a field that is left out.
pub record HookSpecificOutput : Type 0 where
  pub hook_event_name : Str
  pub permission_decision : Str
  pub permission_decision_reason : Str
  pub additional_context : Str

pub record HookAnswer : Type 0 where
  pub hook_specific_output : Option HookSpecificOutput
  pub decision : Str
  pub reason : Str
  pub system_message : Str

-- The output of Codex and of Gemini: the event's name and the context.
pub record NamedContext : Type 0 where
  pub hook_event_name : Str
  pub additional_context : Str

pub record CodexAnswer : Type 0 where
  pub continue : Bool
  pub hook_specific_output : Option NamedContext
  pub decision : Str
  pub reason : Str
  pub stop_reason : Str
  pub system_message : Str

pub record GeminiAnswer : Type 0 where
  pub hook_specific_output : Option NamedContext
  pub decision : Str
  pub reason : Str
  pub system_message : Str

pub record ElicitationAnswer : Type 0 where
  pub action : Str
  pub system_message : Str

-- What `BuildForContext` returns: nothing, or one of the responses.
pub data Answer : Type 0 where
  no_answer : Answer
  hook_answer : HookAnswer → Answer
  codex_answer : CodexAnswer → Answer
  gemini_answer : GeminiAnswer → Answer
  -- Without a response it is a typed nil pointer, and no nil interface like `no_answer`.
  elicitation_answer : Option ElicitationAnswer → Answer
