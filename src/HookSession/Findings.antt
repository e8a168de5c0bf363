-- ===== src/HookSession/Findings.antt =====
-- internal/hooksession/store.go: findings, their identity, and counting them.
use klaudiush.Prelude.{◌+◌, Bool, true, false, Option, none, some, List, [], ◌∷◌, if◌then◌else◌}
use klaudiush.Prelude.Bytes.{Str, codes, str_eq, str_le, join}
use klaudiush.Prelude.Sort.{sort}
use klaudiush.Hook.{Context, get_command, get_file_path}
use klaudiush.Hook.Names.{event_name, tool_name_string}
use klaudiush.Hook.Metadata.{canonical_string, family_string}
use klaudiush.Dispatcher.Errors.{ValidationError}
use klaudiush.HookSession.{Time, Finding}

-- `append(nil, paths...)` and `cloneDetails` copy, which makes no difference to the values.
unfoldable pub finding_from_validation_error : Context → ValidationError → Time → Finding
finding_from_validation_error hook verr now = record {
  validator = verr.validator;
  message = verr.message;
  details = verr.details;
  should_block = verr.should_block;
  reference = verr.reference;
  fix_hint = verr.fix_hint;
  bypassed = verr.bypassed;
  bypass_reason = verr.bypass_reason;
  event = canonical_string hook.event;
  raw_event_name = event_name hook;
  tool_name = tool_name_string hook;
  tool_family = family_string hook.tool_family;
  command = get_command hook;
  file_path = get_file_path hook;
  affected_paths = hook.affected_paths;
  count = 1;
  first_seen = now;
  last_seen = now;
}

-- `strconv.FormatBool`
unfoldable pub format_bool : Bool → Str
format_bool true = codes "true"
format_bool false = codes "false"

unfoldable pub identity_key : Finding → Str
unfolding format_bool
identity_key f =
    join
      (f.validator
        ∷ f.message
        ∷ format_bool f.should_block
        ∷ f.reference
        ∷ format_bool f.bypassed
        ∷ f.event
        ∷ f.raw_event_name
        ∷ f.tool_name
        ∷ f.tool_family
        ∷ f.command
        ∷ f.file_path
        ∷ join (sort str_le f.affected_paths) (0 ∷ [])
        ∷ [])
      (0x1F ∷ [])

-- The finding that `upsertFinding` leaves in place of one with the same identity.
unfoldable pub seen_again : Finding → Finding → Finding
seen_again item existing = record existing {
  count = existing.count + 1;
  last_seen = item.last_seen;
  details = elim existing.details [ [] ↦ item.details | d ∷ ds ↦ existing.details ];
}

-- The loop of `upsertFinding`.
unfoldable pub upsert : Finding → List Finding → List Finding
unfolding seen_again
upsert item [] = item ∷ []
upsert item (existing ∷ findings) =
    if str_eq (identity_key existing) (identity_key item)
    then seen_again item existing ∷ findings
    else existing ∷ upsert item findings

unfoldable pub upsert_finding :
    Context → Time → Option ValidationError → List Finding → List Finding
unfolding upsert finding_from_validation_error
upsert_finding hook now none findings = findings
upsert_finding hook now (some verr) findings =
    upsert (finding_from_validation_error hook verr now) findings

-- The loop of `Append`.
unfoldable pub upsert_all :
    Context → Time → List (Option ValidationError) → List Finding → List Finding
unfolding upsert_finding
upsert_all hook now [] findings = findings
upsert_all hook now (verr ∷ errs) findings =
    upsert_all hook now errs (upsert_finding hook now verr findings)
