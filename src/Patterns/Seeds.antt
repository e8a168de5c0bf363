-- ===== src/Patterns/Seeds.antt =====
-- internal/patterns/seeds.go: the built-in failure patterns.
use klaudiush.Prelude.{ℕ, true, none, List, [], ◌∷◌}
use klaudiush.Prelude.Bytes.{Str, codes}
use klaudiush.Prelude.Maps.{insert}
use klaudiush.Patterns.{
  Time, FailurePattern, Patterns, PatternData, pattern_data_version, pattern_key,
}

abbrev pub seed_count : ℕ
seed_count = 5

abbrev seed_pairs : List (Str × Str)
seed_pairs =
    (codes "GIT013", codes "GIT004")
    ∷ (codes "GIT004", codes "GIT005")
    ∷ (codes "GIT005", codes "GIT016")
    ∷ (codes "GIT013", codes "GIT006")
    ∷ (codes "GIT010", codes "GIT013")
    ∷ (codes "GIT010", codes "GIT004")
    ∷ (codes "FILE006", codes "FILE005")
    ∷ (codes "FILE002", codes "FILE003")
    ∷ (codes "FILE010", codes "FILE007")
    ∷ (codes "FILE010", codes "FILE008")
    ∷ (codes "SEC001", codes "SHELL001")
    ∷ (codes "SEC004", codes "SHELL001")
    ∷ (codes "GIT023", codes "FILE005")
    ∷ []

abbrev seed_pattern : Time → Str → Str → FailurePattern
seed_pattern now source_code target_code = record {
  source_code = source_code;
  target_code = target_code;
  count = seed_count;
  last_seen = now;
  first_seen = now;
  seed = true;
}

unfoldable pub seeded : Time → List (Str × Str) → Patterns → Patterns
unfolding pattern_key
seeded now [] patterns = patterns
seeded now ((source_code, target_code) ∷ pairs) patterns = seeded now pairs (
    insert (pattern_key source_code target_code) (seed_pattern now source_code target_code)
      patterns)

-- The clock's reading is `now`.
unfoldable pub seed_patterns : Time → PatternData
unfolding seeded
seed_patterns now = record {
  patterns = seeded now seed_pairs [];
  sessions = none;
  last_updated = now;
  version = pattern_data_version;
}
