-- ===== src/Patterns/Files.antt =====
-- internal/patterns/store.go and seeds.go: reading and writing the pattern files.
-- The disk is a map from paths to what `loadPatternFile` makes of them: a path with no entry is
-- missing, unreadable or not parsed, which are all one error to `Load`. The file under the name
-- `.tmp` that a failed write may leave is read by nothing and is left out.
use klaudiush.Prelude.{Bool, not, ◌&&◌, Option, none, some, List, [], ◌∷◌, if◌then◌else◌}
use klaudiush.Prelude.Bytes.{Str, is_empty}
use klaudiush.Prelude.Maps.{get_or, lookup, insert}
use klaudiush.Patterns.{Time, Sessions, PatternData, FilePatternStore, set_project_data}
use klaudiush.Patterns.Merge.{merge_pattern_data}
use klaudiush.Patterns.Seeds.{seed_patterns}

abbrev pub Disk : Type 0
Disk = List (Str × PatternData)

-- What is read back of the JSON that is written: no sessions are a nil map.
abbrev pub stored_sessions : Option Sessions → Option Sessions
stored_sessions none = none
stored_sessions (some []) = none
stored_sessions (some (e ∷ sessions)) = some (e ∷ sessions)

unfoldable pub as_stored : PatternData → PatternData
as_stored pd = record pd { sessions = stored_sessions pd.sessions }

-- The third step of `Load`, by what it reads.
unfoldable pub load_legacy : Option PatternData → FilePatternStore → FilePatternStore
load_legacy none s = s
load_legacy (some legacy) s = record s { global_data = merge_pattern_data s.global_data legacy }

-- The first two steps of `Load`.
unfoldable pub load_files : Disk → FilePatternStore → FilePatternStore
load_files disk s = record s {
  project_data = get_or (lookup s.project_path disk) s.project_data;
  global_data = get_or (lookup s.global_path disk) s.global_data;
}

-- `Load` returns no error.
unfoldable pub load : Disk → FilePatternStore → FilePatternStore
unfolding load_files load_legacy
load disk s =
    if s.use_legacy_fallback && not (is_empty s.legacy_fallback_path)
    then load_legacy (lookup s.legacy_fallback_path disk) (load_files disk s)
    else load_files disk s

-- `savePatternFile`, by the errors of making the directory, writing and renaming.
unfoldable pub save_pattern_file :
    (mkdir write rename : Option Str) → Str → PatternData → Disk → Option Str × Disk
unfolding as_stored
save_pattern_file (some e) write rename path pd disk = (some e, disk)
save_pattern_file none (some e) rename path pd disk = (some e, disk)
save_pattern_file none none (some e) path pd disk = (some e, disk)
save_pattern_file none none none path pd disk = (none, insert path (as_stored pd) disk)

unfoldable pub stamped : Time → PatternData → PatternData
stamped now pd = record pd { last_updated = now }

module _ (mkdir write rename : Option Str) (now : Time) where
  unfoldable pub save : FilePatternStore → Disk → Option Str × Disk × FilePatternStore
  unfolding stamped
  save s disk =
      let s' = record s { global_data = stamped now s.global_data } in
      let (e, disk') = save_pattern_file mkdir write rename s.global_path s'.global_data disk in
      (e, disk', s')

  unfoldable pub save_project : FilePatternStore → Disk → Option Str × Disk × FilePatternStore
  unfolding stamped
  save_project s disk =
      let s' = record s { project_data = stamped now s.project_data } in
      let (e, disk') = save_pattern_file mkdir write rename s.project_path s'.project_data disk in
      (e, disk', s')

  -- `exists` is `HasProjectData`: the file is there, whether or not it parses.
  unfoldable pub ensure_seed_data :
      (exists : Bool) → FilePatternStore → Disk → Option Str × Disk × FilePatternStore
  ensure_seed_data exists s disk =
      if exists then (none, disk, s) else save_project (set_project_data (seed_patterns now) s) disk
