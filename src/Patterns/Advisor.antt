-- ===== src/Patterns/Advisor.antt =====
-- internal/patterns/advisor.go: hints at the failures that often follow the ones at hand.
use klaudiush.Prelude.{ℕ, suc, Bool, ◌||◌, List, [], ◌∷◌, ◌++◌, leb, length, if◌then◌else◌}
use klaudiush.Prelude.Bytes.{Str, codes}
use klaudiush.Prelude.Int.{ℤ, pos, leb_ℤ}
use klaudiush.Prelude.Maps.{get_or, lookup}
use klaudiush.Prelude.Sort.{sort}
use klaudiush.Patterns.{FailurePattern, Patterns}
use klaudiush.Patterns.Merge.{get_follow_ups}

abbrev code_descriptions : List (Str × Str)
code_descriptions =
    (codes "GIT001", codes "missing signoff")
    ∷ (codes "GIT002", codes "missing GPG sign")
    ∷ (codes "GIT003", codes "no staged files")
    ∷ (codes "GIT004", codes "title too long")
    ∷ (codes "GIT005", codes "body line too long")
    ∷ (codes "GIT006", codes "infra scope misuse")
    ∷ (codes "GIT007", codes "missing remote")
    ∷ (codes "GIT008", codes "missing branch")
    ∷ (codes "GIT009", codes "file not found")
    ∷ (codes "GIT010", codes "missing flags")
    ∷ (codes "GIT011", codes "PR ref in commit")
    ∷ (codes "GIT012", codes "Claude attribution")
    ∷ (codes "GIT013", codes "conventional format")
    ∷ (codes "GIT014", codes "forbidden pattern")
    ∷ (codes "GIT015", codes "signoff mismatch")
    ∷ (codes "GIT016", codes "list format")
    ∷ (codes "GIT017", codes "merge message")
    ∷ (codes "GIT018", codes "merge signoff")
    ∷ (codes "GIT019", codes "blocked files")
    ∷ (codes "GIT020", codes "branch naming")
    ∷ (codes "GIT021", codes "no-verify flag")
    ∷ (codes "GIT022", codes "Kong org push")
    ∷ (codes "GIT023", codes "PR validation")
    ∷ (codes "GIT024", codes "fetch no remote")
    ∷ (codes "GIT025", codes "blocked remote")
    ∷ (codes "FILE001", codes "shellcheck")
    ∷ (codes "FILE002", codes "terraform fmt")
    ∷ (codes "FILE003", codes "tflint")
    ∷ (codes "FILE004", codes "actionlint")
    ∷ (codes "FILE005", codes "markdown lint")
    ∷ (codes "FILE006", codes "gofumpt")
    ∷ (codes "FILE007", codes "ruff")
    ∷ (codes "FILE008", codes "oxlint")
    ∷ (codes "FILE009", codes "rustfmt")
    ∷ (codes "FILE010", codes "linter ignore")
    ∷ (codes "SEC001", codes "API key detected")
    ∷ (codes "SEC002", codes "password detected")
    ∷ (codes "SEC003", codes "private key detected")
    ∷ (codes "SEC004", codes "token detected")
    ∷ (codes "SEC005", codes "connection string")
    ∷ (codes "SHELL001", codes "backtick substitution")
    ∷ (codes "GH001", codes "issue validation")
    ∷ (codes "PLUG001", codes "path traversal")
    ∷ (codes "PLUG002", codes "path not allowed")
    ∷ (codes "PLUG003", codes "invalid extension")
    ∷ (codes "PLUG004", codes "insecure remote")
    ∷ (codes "PLUG005", codes "dangerous chars")
    ∷ []

-- The store stands apart: what `GetFollowUps` visits is an argument of `advise`.
pub record Advisor : Type 0 where
  pub min_count : ℤ
  pub max_per_error : ℤ
  pub max_total : ℤ

unfoldable pub describe_code : Str → Str
describe_code code = get_or (lookup code code_descriptions) code

unfoldable pub format_warning : FailurePattern → Str
unfolding describe_code
format_warning p =
    codes "Pattern hint: after fixing "
    ++ (p.source_code
        ++ (codes " ("
            ++ (describe_code p.source_code
                ++ (codes "), "
                    ++ (p.target_code
                        ++ (codes " ("
                            ++ (describe_code p.target_code ++ codes ") often follows.")))))))

-- `b.Count - a.Count <= 0`
abbrev pub seen_more : (a b : FailurePattern) → Bool
seen_more a b = leb b.count a.count

-- `visit i` is the merged map in the order in which the i-th call of `GetFollowUps` visits it.
module _ (a : Advisor) (visit : ℕ → Patterns) where
  -- `len(warnings) >= a.maxTotal`
  abbrev pub is_full : List Str → Bool
  is_full warnings = leb_ℤ a.max_total (pos (length warnings))

  -- The loop over the follow-ups of one code.
  unfoldable pub add_warnings : (per_error : ℕ) → List FailurePattern → List Str → List Str
  add_warnings per_error [] warnings = warnings
  add_warnings per_error (p ∷ ps) warnings =
      if leb_ℤ a.max_per_error (pos per_error) || is_full warnings
      then warnings
      else add_warnings (suc per_error) ps (warnings ++ format_warning p ∷ [])

  -- The loop over the codes.
  unfoldable pub advise_from : ℕ → List Str → List Str → List Str
  unfolding add_warnings
  advise_from i [] warnings = warnings
  advise_from i (code ∷ rest) warnings =
      if is_full warnings
      then warnings
      else advise_from (suc i) rest
          (add_warnings 0 (sort seen_more (get_follow_ups (visit i) code a.min_count)) warnings)

  unfoldable pub advise : List Str → List Str
  unfolding advise_from
  advise error_codes = advise_from 0 error_codes []
