-- ===== src/Rules/Registry.antt =====
-- internal/rules/registry.go: compiled rules with distinct names, the highest priority first. The
-- lock makes each method atomic. `slices.SortFunc` and the order of a Go map leave no freedom, since
-- names are distinct.
pub mod Laws
pub mod Contents
use klaudiush.Prelude.{
  ℕ, Bool, true, false, Option, none, some, List, [], ◌∷◌, ◌++◌, length, filter, map, if◌then◌else◌,
}
use klaudiush.Prelude.Bytes.{Str, codes, is_empty, str_le}
use klaudiush.Prelude.Int.{ltb_ℤ}
use klaudiush.Prelude.Maps.{get_or, is_some}
use klaudiush.Prelude.Named.{find_named, put_named, delete_named, has_name}
use klaudiush.Prelude.Result.{Result, ok, err}
use klaudiush.Prelude.Sort.{sort}
use klaudiush.Prelude.Unicode.{Unicode}
use klaudiush.Rules.Types.{Rule}
use klaudiush.Rules.Pattern.{Engines}
use klaudiush.Rules.Matcher.{Matcher, always}
use klaudiush.Rules.Matcher.Build.{build_matcher}

pub record CompiledRule : Type 0 where
  pub rule : Rule
  pub matcher : Matcher

abbrev pub Registry : Type 0
Registry = List CompiledRule

abbrev pub name_of : CompiledRule → Str
name_of c = c.rule.name

abbrev pub rule_name : Rule → Str
rule_name r = r.name

-- The comparison of `sortRulesLocked`: priority from high to low, then name.
unfoldable pub comes_first : Rule → Rule → Bool
comes_first a b =
    if ltb_ℤ b.priority a.priority
    then true
    else if ltb_ℤ a.priority b.priority
    then false
    else str_le a.name b.name

abbrev pub compiled_first : CompiledRule → CompiledRule → Bool
compiled_first a b = comes_first a.rule b.rule

unfoldable pub new_registry : Registry
new_registry = []

unfoldable pub sort_rules : Registry → Registry
sort_rules r = sort compiled_first r

-- The loop over existing names with its `append` behind it.
unfoldable pub add_compiled : CompiledRule → Registry → Registry
unfolding sort_rules
add_compiled c r = sort_rules (put_named name_of c r)

module _ (u : Unicode) (e : Engines) where
  abbrev pub add_built : Rule → Result (Option Matcher) → Registry → Option Str × Registry
  add_built rule (err error) r = (some (codes "failed to compile rule matcher: " ++ error), r)
  add_built rule (ok matcher) r =
      (none, add_compiled (record { rule = rule; matcher = get_or matcher always }) r)

  -- `Add`: the error, if any, and the registry.
  unfoldable pub add : Option Rule → Registry → Option Str × Registry
  unfolding add_compiled
  add none r = (some (codes "rule cannot be nil"), r)
  add (some rule) r =
      if is_empty rule.name
      then (some (codes "rule name cannot be empty"), r)
      else if is_some rule.action
      then add_built rule (build_matcher u e rule.conditions) r
      else (some (codes "rule action cannot be nil"), r)

  -- What the loop of `AddAll` does with the outcome for one rule.
  unfoldable pub add_all : List (Option Rule) → Registry → Option Str × Registry
  unfolding add
  add_all [] r = (none, r)
  add_all (rule ∷ rules) r =
      let (error, r') = add rule r in
      let rest = add_all rules r' in if is_some error then (error, r') else rest

unfoldable pub remove : Str → Registry → Bool × Registry
remove name r = if has_name name_of name r then (true, delete_named name_of name r) else (false, r)

unfoldable pub get : Str → Registry → Option CompiledRule
get name r = find_named name_of name r

unfoldable pub get_all : Registry → List CompiledRule
get_all r = r

unfoldable pub get_enabled : Registry → List CompiledRule
get_enabled r = filter (λ c. c.rule.enabled) r

unfoldable pub size : Registry → ℕ
size r = length r

unfoldable pub clear : Registry → Registry
clear r = []

-- `existing` maps each name to its one index, so the loop over the source overwrites or appends.
abbrev pub put_all : List CompiledRule → Registry → Registry
put_all [] r = r
put_all (c ∷ cs) r = put_all cs (put_named name_of c r)

-- `Merge`; a nil source changes nothing.
unfoldable pub merge : Option Registry → Registry → Registry
unfolding sort_rules
merge none r = r
merge (some source) r = sort_rules (put_all source r)

-- The map of `MergeRules` under each rule's own name: an entry is a rule.
abbrev pub put_rules : List Rule → List Rule → List Rule
put_rules [] merged = merged
put_rules (x ∷ xs) merged = put_rules xs (put_named rule_name x merged)

unfoldable pub merge_rules : (base override : List Rule) → List Rule
merge_rules base override = sort comes_first (put_rules override (put_rules base []))
