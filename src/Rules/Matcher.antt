-- ===== src/Rules/Matcher.antt =====
-- internal/rules/matcher.go: one condition on a match context, and their combinations.
pub mod Build
pub mod Conditions
pub mod Laws
use klaudiush.Prelude.{
  Bool, true, false, not, ◌&&◌, ◌||◌, Option, none, some, [], ◌++◌, if◌then◌else◌,
}
use klaudiush.Prelude.Bytes.{Str, codes, is_empty, str_eq, has_prefix, cut_suffix}
use klaudiush.Prelude.Unicode.{Unicode}
use klaudiush.Hook.{Context, get_command, get_file_path, get_content}
use klaudiush.Hook.Names.{matches_provider, matches_event_name, matches_tool_name}
use klaudiush.Rules.Types.{ValidatorType, validator_all, MatchContext, GitContext, FileContext}
use klaudiush.Rules.Pattern.{Engines, Pattern, matches}

pub data CompositeOp : Type 0 where
  op_and op_or op_not : CompositeOp

mutual
  pub data Matcher : Type 0 where
    repo_pattern : Pattern → Matcher
    remote_name : Str → Matcher
    branch_pattern : Pattern → Matcher
    file_pattern : Pattern → Matcher
    content_pattern : Pattern → Matcher
    command_pattern : Pattern → Matcher
    validator_type : ValidatorType → Matcher
    provider : Str → Matcher
    tool_type : Str → Matcher
    event_type : Str → Matcher
    composite : Matchers → CompositeOp → Matcher
    always : Matcher
    never : Matcher

  pub data Matchers : Type 0 where
    end : Matchers
    also : Matcher → Matchers → Matchers

-- `f(p)` of what a pointer points to, `false` if it is nil.
abbrev pub on {ℓ} : {A : Type ℓ} → Option A → (A → Bool) → Bool
on none f = false
on (some a) f = f a

-- `git.*` accepts `git.push`.
abbrev category_matches : (target : Str) → Option Str → Bool
category_matches target none = false
category_matches target (some before) = has_prefix target (before ++ codes ".")

unfoldable pub validator_type_matches : (pattern target : ValidatorType) → Bool
validator_type_matches pattern target =
    if str_eq pattern validator_all
    then true
    else if is_empty target
    then false
    else if str_eq target pattern
    then true
    else category_matches target (cut_suffix pattern (codes ".*"))

-- A text of the repository, which an empty one is not.
abbrev pub given : Str → (Str → Bool) → Bool
given s f = not (is_empty s) && f s

-- The path of the file context, else the one of the hook context.
abbrev pub file_text : (FileContext → Str) → (Context → Str) → MatchContext → (Str → Bool) → Bool
file_text field fallback ctx f = elim ctx.file_context [
  | none ↦ on ctx.hook_context (λ h. f (fallback h))
  | some file ↦
      if is_empty (field file) then on ctx.hook_context (λ h. f (fallback h)) else f (field file)
]

module _ (u : Unicode) (e : Engines) where
  unfoldable mutual
    -- `Match` of every kind of matcher.
    pub accepts : Matcher → MatchContext → Bool
    accepts (repo_pattern p) ctx = on ctx.git_context (λ g. given g.repo_root (matches u e p))
    accepts (remote_name r) ctx = on ctx.git_context (λ g. str_eq g.remote r)
    accepts (branch_pattern p) ctx = on ctx.git_context (λ g. given g.branch (matches u e p))
    accepts (file_pattern p) ctx = file_text (λ f. f.path) get_file_path ctx (matches u e p)
    accepts (content_pattern p) ctx = file_text (λ f. f.content) get_content ctx (matches u e p)
    accepts (command_pattern p) ctx =
        if not (is_empty ctx.command)
        then matches u e p ctx.command
        else on ctx.hook_context (λ h. matches u e p (get_command h))
    accepts (validator_type t) ctx = validator_type_matches t ctx.validator_type
    accepts (provider p) ctx = on ctx.hook_context (λ h. matches_provider u h p)
    accepts (tool_type t) ctx = on ctx.hook_context (λ h. matches_tool_name u h t)
    accepts (event_type t) ctx = on ctx.hook_context (λ h. matches_event_name u h t)
    accepts (composite end op) ctx = true
    accepts (composite (also m ms) op_and) ctx = accepts_all (also m ms) ctx
    accepts (composite (also m ms) op_or) ctx = accepts_any (also m ms) ctx
    accepts (composite (also m ms) op_not) ctx = not (accepts m ctx)
    accepts always ctx = true
    accepts never ctx = false

    pub accepts_all : Matchers → MatchContext → Bool
    accepts_all end ctx = true
    accepts_all (also m ms) ctx = accepts m ctx && accepts_all ms ctx

    pub accepts_any : Matchers → MatchContext → Bool
    accepts_any end ctx = false
    accepts_any (also m ms) ctx = accepts m ctx || accepts_any ms ctx
