-- ===== src/Rules/Tests/Contents.antt =====
-- What the registry holds after each of its operations, at concrete rules.
use klaudiush.Prelude.{◌≡◌, ◌≢◌, refl, Option, none, some, [], ◌∷◌, map, if◌then◌else◌}
use klaudiush.Prelude.Bytes.{codes, contains, str_eq}
use klaudiush.Prelude.Maps.{get_or}
use klaudiush.Prelude.Named.{find_named, Distinct, put_named}
use klaudiush.Prelude.Result.{ok}
use klaudiush.Prelude.Sort.{IsSorted, sort}
use klaudiush.Prelude.Unicode.{ascii_only}
use klaudiush.Rules.Pattern.{
  compile_multi_pattern, compile_pattern_with_options, detect_pattern_type, is_negated,
}
use klaudiush.Rules.Matcher.{Matcher, always}
use klaudiush.Rules.Matcher.Build.{build_matcher, build_matcher_advanced, use_advanced}
use klaudiush.Rules.Registry.{
  rule_name, comes_first, new_registry, add, add_all, remove, get, merge, merge_rules,
}
use klaudiush.Rules.Registry.Laws.{IsRegistry, Reachable-IsRegistry}
use klaudiush.Rules.Registry.Contents.{
  or_else, find_last, get-add, get-remove, get-merge, merge_rules_overrides,
}
use klaudiush.Rules.Tests.{plain, allow_all, block_main, registry, registry_reached}

order_test : map (λ c. c.rule) registry ≡ block_main ∷ allow_all ∷ []
unfolding codes add_all build_matcher new_registry use_advanced build_matcher_advanced
    compile_multi_pattern compile_pattern_with_options detect_pattern_type contains is_negated sort
    put_named str_eq comes_first
order_test = refl

Reachable-IsRegistry_example : IsRegistry ascii_only plain registry
Reachable-IsRegistry_example = Reachable-IsRegistry ascii_only plain registry registry_reached

get-merge_example :
    get (codes "allow-all") (merge (some registry) registry)
    ≡ or_else (get (codes "allow-all") registry) (get (codes "allow-all") registry)
get-merge_example =
    get-merge ascii_only plain registry registry (codes "allow-all")
      (Reachable-IsRegistry ascii_only plain registry registry_reached)
      (Reachable-IsRegistry ascii_only plain registry registry_reached)

get-remove_example : get (codes "allow-all") (remove (codes "block-main") registry).1 ≡ (
    if str_eq (codes "block-main") (codes "allow-all")
    then none
    else get (codes "allow-all") registry)
get-remove_example =
    get-remove ascii_only plain (codes "block-main") registry (codes "allow-all")
      (Reachable-IsRegistry ascii_only plain registry registry_reached)

get-add_example :
    (((add ascii_only plain (some allow_all) registry).0 ≢ none)
      → (add ascii_only plain (some allow_all) registry).1 ≡ registry)
    × ((add ascii_only plain (some allow_all) registry).0 ≡ none
        → (o : Option Matcher) × (build_matcher ascii_only plain none ≡ ok o)
          × (get (codes "block-main") (add ascii_only plain (some allow_all) registry).1 ≡ (
              if str_eq (codes "allow-all") (codes "block-main")
              then some (record { rule = allow_all; matcher = get_or o always })
              else get (codes "block-main") registry)))
get-add_example =
    get-add ascii_only plain allow_all registry (codes "block-main")
      (Reachable-IsRegistry ascii_only plain registry registry_reached)

merge_rules_overrides_example :
    Distinct rule_name (merge_rules (allow_all ∷ []) (block_main ∷ allow_all ∷ []))
    × IsSorted comes_first (merge_rules (allow_all ∷ []) (block_main ∷ allow_all ∷ []))
    × (find_named rule_name
          (codes "allow-all")
          (merge_rules (allow_all ∷ []) (block_main ∷ allow_all ∷ []))
        ≡ or_else
            (find_last rule_name (codes "allow-all") (block_main ∷ allow_all ∷ []))
            (find_last rule_name (codes "allow-all") (allow_all ∷ [])))
merge_rules_overrides_example =
    merge_rules_overrides (allow_all ∷ []) (block_main ∷ allow_all ∷ []) (codes "allow-all")
