-- ===== src/Patterns.antt =====
-- internal/patterns/store.go: the failure patterns of the project and of the user, and the codes that
-- each session failed with last.
-- A time is the number of nanoseconds since Go's zero time. The values of the maps are pointers, which
-- are never nil in what the program writes, and no two of which are the same. A count is the number
-- of times that a sequence was seen, which is not negative. JSON leaves a map of sessions out if it
-- is empty, so reading gives a nil map back.
pub mod Config
pub mod Merge
pub mod Seeds
pub mod Recorder
pub mod Advisor
pub mod Laws
pub mod Advice
pub mod Learning
pub mod Files
pub mod Tests
use klaudiush.Prelude.{
  ℕ, ◌+◌, ◌-◌, Bool, true, false, not, ◌&&◌, Option, none, some, List, [], ◌∷◌, ◌++◌, ltb, filter,
  length, if◌then◌else◌,
}
use klaudiush.Prelude.Bytes.{Str, codes, str_eq, is_empty}
use klaudiush.Prelude.Int.{ℤ, pos, pos_part, ◌-ℤ◌, ltb_ℤ}
use klaudiush.Prelude.Maps.{get_or, lookup, insert, delete}
use klaudiush.Prelude.Maps.Eviction.{evict}

abbrev pub Time : Type 0
Time = ℕ

pub record FailurePattern : Type 0 where
  pub source_code : Str
  pub target_code : Str
  pub count : ℕ
  pub last_seen : Time
  pub first_seen : Time
  pub seed : Bool

pub record SessionEntry : Type 0 where
  pub codes : List Str
  pub last_seen : Time

abbrev pub Patterns : Type 0
Patterns = List (Str × FailurePattern)

abbrev pub Sessions : Type 0
Sessions = List (Str × SessionEntry)

pub record PatternData : Type 0 where
  pub patterns : Patterns
  pub sessions : Option Sessions
  pub last_updated : Time
  pub version : ℕ

pub record FilePatternStore : Type 0 where
  pub project_path : Str
  pub global_path : Str
  pub legacy_fallback_path : Str
  pub use_legacy_fallback : Bool
  pub project_data : PatternData
  pub global_data : PatternData

abbrev pub pattern_data_version : ℕ
pattern_data_version = 1

abbrev pub new_pattern_data : PatternData
new_pattern_data = record {
  patterns = [];
  sessions = none;
  last_updated = 0;
  version = pattern_data_version;
}

unfoldable pub pattern_key : (source_code target_code : Str) → Str
pattern_key source_code target_code = source_code ++ (codes "->" ++ target_code)

-- The entry that `RecordSequence` leaves at the key.
unfoldable pub recorded :
    Time → (source_code target_code : Str) → Option FailurePattern → FailurePattern
recorded now source_code target_code none = record {
  source_code = source_code;
  target_code = target_code;
  count = 1;
  last_seen = now;
  first_seen = now;
  seed = false;
}
recorded now source_code target_code (some existing) = record existing {
  count = existing.count + 1;
  last_seen = now;
}

unfoldable pub record_sequence :
    Time → (source_code target_code : Str) → FilePatternStore → FilePatternStore
unfolding recorded pattern_key
record_sequence now source_code target_code s =
    let key = pattern_key source_code target_code in
    record s {
      global_data = record s.global_data {
        patterns =
            insert key (recorded now source_code target_code (lookup key s.global_data.patterns))
              s.global_data.patterns;
      };
    }

-- `p.LastSeen.Before(now.Add(-maxAge))`
unfoldable pub is_older : (now : Time) (max_age : ℤ) → Time → Bool
unfolding ◌-ℤ◌
is_older now max_age last_seen = ltb_ℤ (pos last_seen) (pos now -ℤ max_age)

-- Deleting while ranging over a map deletes what passes the test.
unfoldable pub cleanup : (now : Time) (max_age : ℤ) → FilePatternStore → ℕ × FilePatternStore
unfolding is_older
cleanup now max_age s =
    let kept = filter (λ e. not (is_older now max_age e.1.last_seen)) s.global_data.patterns in
    (
      length s.global_data.patterns - length kept,
      record s { global_data = record s.global_data { patterns = kept } },
    )

abbrev pub codes_of : Option SessionEntry → List Str
codes_of none = []
codes_of (some entry) = entry.codes

-- What a map of sessions that may be nil holds.
unfoldable pub codes_in : Str → Option Sessions → List Str
codes_in session_id none = []
codes_in session_id (some sessions) = codes_of (lookup session_id sessions)

unfoldable pub get_session_codes : Str → FilePatternStore → List Str
unfolding codes_in
get_session_codes session_id s = codes_in session_id s.global_data.sessions

unfoldable pub with_sessions : Option Sessions → FilePatternStore → FilePatternStore
with_sessions sessions s = record s { global_data = record s.global_data { sessions = sessions } }

unfoldable pub set_session_codes : Time → Str → List Str → FilePatternStore → FilePatternStore
unfolding with_sessions
set_session_codes now session_id session_codes s =
    let entry : SessionEntry = record { codes = session_codes; last_seen = now } in
    with_sessions (some (insert session_id entry (get_or s.global_data.sessions []))) s

unfoldable pub without : Str → Option Sessions → Option Sessions
without session_id none = none
without session_id (some sessions) = some (delete session_id sessions)

unfoldable pub clear_session_codes : Str → FilePatternStore → FilePatternStore
unfolding with_sessions without
clear_session_codes session_id s = with_sessions (without session_id s.global_data.sessions) s

unfoldable pub cleanup_sessions :
    (now : Time) (max_age : ℤ) → FilePatternStore → ℕ × FilePatternStore
unfolding is_older with_sessions
cleanup_sessions now max_age s = elim s.global_data.sessions [
  | none ↦ (0, s)
  | some sessions ↦
      let kept = filter (λ e. not (is_older now max_age e.1.last_seen)) sessions in
      (length sessions - length kept, with_sessions (some kept) s)
]

-- `toRemove`, which is 0 where `TrimPatterns` and `TrimSessions` return early.
unfoldable pub to_remove : (max_count : ℤ) (count : ℕ) → ℕ
to_remove max_count count =
    if ltb_ℤ (pos 0) max_count && ltb_ℤ max_count (pos count) then count - pos_part max_count else 0

-- `order` is the map's entries in the order in which the range visits them.
unfoldable pub trim_patterns :
    (max_count : ℤ) (order : Patterns) → FilePatternStore → ℕ × FilePatternStore
unfolding to_remove
trim_patterns max_count order s =
    let n = to_remove max_count (length s.global_data.patterns) in
    (
      n,
      record s {
        global_data = record s.global_data {
          patterns = evict (λ p. p.last_seen) n order s.global_data.patterns;
        };
      },
    )

unfoldable pub trim_sessions :
    (max_count : ℤ) (order : Sessions) → FilePatternStore → ℕ × FilePatternStore
unfolding to_remove with_sessions
trim_sessions max_count order s = elim s.global_data.sessions [
  | none ↦ (0, s)
  | some sessions ↦
      let n = to_remove max_count (length sessions) in
      (n, with_sessions (some (evict (λ e. e.last_seen) n order sessions)) s)
]

unfoldable pub get_active_sessions : FilePatternStore → ℕ
get_active_sessions s = length (get_or s.global_data.sessions [])

-- The copy that the code makes has the same entries.
unfoldable pub get_sessions : FilePatternStore → Option Sessions
get_sessions s = s.global_data.sessions

unfoldable pub set_project_data : PatternData → FilePatternStore → FilePatternStore
set_project_data pd s = record s { project_data = pd }
