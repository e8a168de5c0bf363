-- ===== src/Rules/Tests/Patterns.antt =====
-- Runs of the patterns and of the matchers that are built of them.
use klaudiush.Prelude.{◌≡◌, refl, true, false, some, [], ◌∷◌}
use klaudiush.Prelude.Bytes.{codes, contains, str_eq, cut_suffix, trim_prefix}
use klaudiush.Prelude.Result.{ok}
use klaudiush.Prelude.Unicode.{ascii_only}
use klaudiush.Rules.Types.{RuleMatch}
use klaudiush.Rules.Pattern.{
  Pattern, any_of, glob_pattern, negated_pattern, multi_pattern, also, end, compile_pattern,
  compile_multi_pattern, matches, multi_repr, detect_pattern_type, is_negated, strip_negation,
}
use klaudiush.Rules.Pattern.Laws.{combine, result_matches, compile_multi_pattern-matches}
use klaudiush.Rules.Pattern.Cache.{
  IsCache, new_pattern_cache, new_pattern_cache-IsCache, get_pattern, get_pattern-IsCache,
}
use klaudiush.Rules.Matcher.{Matcher, validator_type_matches}
use klaudiush.Rules.Matcher.Build.{build_matcher, build_matcher_legacy, use_advanced}
use klaudiush.Rules.Matcher.Conditions.{accepts_optional, satisfies}
use klaudiush.Rules.Matcher.Laws.{build_matcher-satisfies}
use klaudiush.Rules.Tests.{plain, anything, context}

wildcard_test :
    (validator_type_matches (codes "git.*") (codes "git.push") ≡ true)
    × (validator_type_matches (codes "git.*") (codes "github.issue") ≡ false)
unfolding codes validator_type_matches str_eq cut_suffix
wildcard_test = (refl, refl)

negation_test :
    compile_pattern ascii_only plain (codes "!main")
    ≡ ok (negated_pattern (glob_pattern (codes "main")))
unfolding codes compile_pattern detect_pattern_type contains is_negated strip_negation trim_prefix
negation_test = refl

abbrev main_or_prod : Pattern
main_or_prod =
    multi_pattern (also (glob_pattern (codes "main")) (also (glob_pattern (codes "prod")) end))
      any_of (multi_repr any_of (codes "main" ∷ codes "prod" ∷ []))

main_or_prod_compiles :
    compile_multi_pattern
      (compile_pattern ascii_only plain)
      any_of
      (codes "main" ∷ codes "prod" ∷ [])
    ≡ ok (some main_or_prod)
unfolding codes compile_multi_pattern compile_pattern detect_pattern_type contains is_negated
main_or_prod_compiles = refl

compile_multi_pattern-matches_example :
    matches ascii_only plain main_or_prod (codes "prod")
    ≡ combine ascii_only plain any_of
        (λ p. result_matches ascii_only plain (compile_pattern ascii_only plain p) (codes "prod"))
        (codes "main" ∷ codes "prod" ∷ [])
compile_multi_pattern-matches_example =
    compile_multi_pattern-matches ascii_only plain (compile_pattern ascii_only plain) any_of
      (codes "main" ∷ codes "prod" ∷ []) main_or_prod (codes "prod") main_or_prod_compiles

get_pattern-IsCache_example :
    ((get_pattern ascii_only plain (codes "!main") new_pattern_cache).0
      ≡ compile_pattern ascii_only plain (codes "!main"))
    × IsCache ascii_only plain (get_pattern ascii_only plain (codes "!main") new_pattern_cache).1
get_pattern-IsCache_example =
    get_pattern-IsCache ascii_only plain (codes "!main") new_pattern_cache
      (new_pattern_cache-IsCache ascii_only plain)

abbrev by_remote : RuleMatch
by_remote = record anything { remote = codes "origin" }

by_remote_builds :
    build_matcher ascii_only plain (some by_remote)
    ≡ ok (some (Matcher.remote_name (codes "origin")))
unfolding codes build_matcher use_advanced build_matcher_legacy
by_remote_builds = refl

build_matcher-satisfies_example :
    accepts_optional ascii_only plain (some (Matcher.remote_name (codes "origin"))) context
    ≡ satisfies ascii_only plain (some by_remote) context
build_matcher-satisfies_example =
    build_matcher-satisfies ascii_only plain context (some by_remote)
      (some (Matcher.remote_name (codes "origin"))) by_remote_builds
