-- ===== src/HookSession.antt =====
-- internal/hooksession/store.go: the findings of each session, kept across hook invocations.
-- The file is a state of its own, since each method reads it and writes it whole. Texts are valid
-- UTF-8, which JSON gives back as they are, and the findings of a list are never nil. A map of details
-- is nil exactly if it is empty. A time is the number of nanoseconds since Go's zero time.
pub mod Findings
pub mod Store
pub mod Laws
pub mod Isolation
pub mod Uniqueness
pub mod Reachable
pub mod Reports
pub mod Tests
use klaudiush.Prelude.{ℕ, Bool, true, false, Option, none, some, List, [], ◌∷◌, ◌++◌}
use klaudiush.Prelude.Bytes.{Str, codes}
use klaudiush.Prelude.Result.{Result, ok, err}

abbrev pub Time : Type 0
Time = ℕ

pub record Finding : Type 0 where
  pub validator : Str
  pub message : Str
  pub details : List (Str × Str)
  pub should_block : Bool
  pub reference : Str
  pub fix_hint : Str
  pub bypassed : Bool
  pub bypass_reason : Str
  pub event : Str
  pub raw_event_name : Str
  pub tool_name : Str
  pub tool_family : Str
  pub command : Str
  pub file_path : Str
  pub affected_paths : List Str
  pub count : ℕ
  pub first_seen : Time
  pub last_seen : Time

pub record SessionEntry : Type 0 where
  pub provider : Str
  pub session_id : Str
  pub started_at : Time
  pub updated_at : Time
  pub findings : List Finding

-- An entry may be null in the file.
abbrev pub Sessions : Type 0
Sessions = List (Str × Option SessionEntry)

-- What `os.ReadFile` and `json.Unmarshal` make of the state file. The map may be null in it.
pub data StateFile : Type 0 where
  missing blank : StateFile
  unreadable unparsable : Str → StateFile
  parsed : Option Sessions → StateFile

unfoldable pub load_state : StateFile → Result Sessions
load_state missing = ok []
load_state blank = ok []
load_state (unreadable e) = err (codes "failed to read hook session state: " ++ e)
load_state (unparsable e) = err (codes "failed to parse hook session state: " ++ e)
load_state (parsed none) = ok []
load_state (parsed (some sessions)) = ok sessions

-- By the errors of making the directory, writing and renaming.
unfoldable pub save_state :
    (mkdir write rename : Option Str) → Sessions → StateFile → Option Str × StateFile
save_state (some e) write rename sessions file = (some e, file)
save_state none (some e) rename sessions file =
    (some (codes "failed to write hook session temp file: " ++ e), file)
save_state none none (some e) sessions file =
    (some (codes "failed to replace hook session state: " ++ e), file)
save_state none none none sessions file = (none, parsed (some sessions))
