-- ===== src/Validator.antt =====
-- internal/validator: results, references, and the registry that selects validators for a context.
-- A validator's own check is an argument: its name, category and a function of the context.
use klaudiush.Prelude.{
  ℕ, Bool, true, false, List, [], ◌∷◌, ◌++◌, length, all, any, not, if◌then◌else◌,
}
use klaudiush.Prelude.Bytes.{Str, codes, after_last}
use klaudiush.Prelude.Maps.{insert}
use klaudiush.Hook.{Context}

pub data ValidatorCategory : Type 0 where
  category_cpu category_io category_git : ValidatorCategory

pub record Result : Type 0 where
  pub passed : Bool
  pub message : Str
  pub details : List (Str × Str)
  pub should_block : Bool
  pub reference : Str
  pub fix_hint : Str

pub record Validator : Type 0 where
  pub name : Str
  pub category : ValidatorCategory
  pub validate : Context → Result

unfoldable pub category_string : ValidatorCategory → Str
category_string category_cpu = codes "CPU"
category_string category_io = codes "IO"
category_string category_git = codes "Git"

abbrev pub bare_result : (passed should_block : Bool) → Str → Result
bare_result passed should_block message = record {
  passed = passed;
  message = message;
  details = [];
  should_block = should_block;
  reference = [];
  fix_hint = [];
}

unfoldable pub pass : Result
pass = bare_result true false []

unfoldable pub pass_with_message : Str → Result
pass_with_message message = bare_result true false message

unfoldable pub fail : Str → Result
fail message = bare_result false true message

unfoldable pub warn : Str → Result
warn message = bare_result false false message

unfoldable pub warn_with_details : Str → List (Str × Str) → Result
warn_with_details message details = record (bare_result false false message) { details = details }

-- `GetSuggestion`, the table of suggestions.go, is an argument.
module _ (get_suggestion : Str → Str) where
  unfoldable pub fail_with_ref : (reference message : Str) → Result
  fail_with_ref ref message = record (bare_result false true message) {
    reference = ref;
    fix_hint = get_suggestion ref;
  }

  unfoldable pub warn_with_ref : (reference message : Str) → Result
  warn_with_ref ref message = record (bare_result false false message) {
    reference = ref;
    fix_hint = get_suggestion ref;
  }

unfoldable pub add_detail : (key value : Str) → Result → Result
add_detail key value r = record r { details = insert key value r.details }

unfoldable pub with_fix_hint : Str → Result → Result
with_fix_hint hint r = record r { fix_hint = hint }

unfoldable pub result_string : Result → Str
result_string r =
    if r.passed then codes "PASS" else if r.should_block then codes "BLOCK" else codes "WARN"

-- `Reference.Code`: what follows the last slash.
unfoldable pub reference_code : Str → Str
reference_code reference = after_last b'/' reference

abbrev pub Predicate : Type 0
Predicate = Context → Bool

pub record Registration : Type 0 where
  pub validator : Validator
  pub predicate : Predicate

unfoldable pub register : Validator → Predicate → List Registration → List Registration
register validator predicate rs = rs ++ record { validator = validator; predicate = predicate } ∷ []

unfoldable pub find_validators : Context → List Registration → List Validator
find_validators ctx [] = []
find_validators ctx (r ∷ rs) =
    if r.predicate ctx then r.validator ∷ find_validators ctx rs else find_validators ctx rs

unfoldable pub count : List Registration → ℕ
count rs = length rs

-- The combinators of predicates.
unfoldable pub and_predicate : List Predicate → Predicate
and_predicate ps ctx = all (λ p. p ctx) ps

unfoldable pub or_predicate : List Predicate → Predicate
or_predicate ps ctx = any (λ p. p ctx) ps

unfoldable pub not_predicate : Predicate → Predicate
not_predicate p ctx = not (p ctx)
