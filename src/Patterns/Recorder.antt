-- ===== src/Patterns/Recorder.antt =====
-- internal/patterns/recorder.go: learning which codes follow which.
-- The clock's readings are numbered: `clock i` is the one of the i-th sequence that is recorded.
use klaudiush.Prelude.{ℕ, suc, List, [], ◌∷◌, if◌then◌else◌}
use klaudiush.Prelude.Bytes.{Str, str_eq}
use klaudiush.Patterns.{
  Time, FilePatternStore, record_sequence, get_session_codes, set_session_codes,
  clear_session_codes,
}

module _ (clock : ℕ → Time) where
  -- The inner loop of `Observe`, with the number of the next reading.
  unfoldable pub record_codes :
      ℕ → (prev : Str) (current : List Str) → FilePatternStore → ℕ × FilePatternStore
  record_codes i prev [] s = (i, s)
  record_codes i prev (code ∷ current) s =
      record_codes (if str_eq prev code then i else suc i) prev current
        (if str_eq prev code then s else record_sequence (clock i) prev code s)

  -- The outer loop.
  unfoldable pub record_pairs :
      ℕ → (prev current : List Str) → FilePatternStore → ℕ × FilePatternStore
  unfolding record_codes
  record_pairs i [] current s = (i, s)
  record_pairs i (code ∷ prev) current s =
      let (i', s') = record_codes i code current s in record_pairs i' prev current s'

  unfoldable pub observe : Str → List Str → FilePatternStore → FilePatternStore
  unfolding record_pairs
  observe session_id [] s = clear_session_codes session_id s
  observe session_id (code ∷ current) s =
      let (i, s') = record_pairs 0 (get_session_codes session_id s) (code ∷ current) s in
      set_session_codes (clock i) session_id (code ∷ current) s'
