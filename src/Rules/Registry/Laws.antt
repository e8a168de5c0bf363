-- ===== src/Rules/Registry/Laws.antt =====
-- The invariant of the registry, and that every operation keeps it.
use klaudiush.Prelude.{
  ◌≡◌, refl, inl, inr, true, false, Option, none, some, List, [], ◌∷◌, arith, All, Bool-cases,
}
use klaudiush.Prelude.Bytes.{Str, is_empty, str_eq}
use klaudiush.Prelude.Bytes.Laws.{str_le_total, str_le_trans}
use klaudiush.Prelude.Maps.{get_or, is_some}
use klaudiush.Prelude.Named.{put_named, delete_named, has_name, Distinct}
use klaudiush.Prelude.Named.Laws.{put_named-Distinct, delete_named-Distinct, sort-Distinct}
use klaudiush.Prelude.Result.{ok, err, Result}
use klaudiush.Prelude.Sort.{IsSorted}
use klaudiush.Prelude.Sort.Laws.{sort-IsSorted, All-sort}
use klaudiush.Prelude.Unicode.{Unicode}
use klaudiush.Rules.Types.{Rule}
use klaudiush.Rules.Pattern.{Engines}
use klaudiush.Rules.Matcher.{Matcher, always}
use klaudiush.Rules.Matcher.Build.{build_matcher}
use klaudiush.Rules.Registry.{
  CompiledRule, Registry, name_of, comes_first, compiled_first, new_registry, sort_rules,
  add_compiled, add, add_all, add_built, remove, clear, put_all, merge,
}

pub comes_first_total : (a b : Rule) → comes_first a b ≡ false → comes_first b a ≡ true
unfolding comes_first
comes_first_total a b h = ground (arith, h, str_le_total a.name b.name)

pub comes_first_trans :
    (a b c : Rule) → comes_first a b ≡ true → comes_first b c ≡ true → comes_first a c ≡ true
unfolding comes_first
comes_first_trans a b c h k = ground (arith, h, k, str_le_trans a.name b.name c.name)

module _ (u : Unicode) (e : Engines) where
  -- A rule that `Add` lets in: named, with an action, and with the matcher of its conditions.
  pub record IsCompiled (c : CompiledRule) : Type 0 where
    pub named : is_empty c.rule.name ≡ false
    pub acts : is_some c.rule.action ≡ true
    pub matcher : Option Matcher
    pub built : build_matcher u e c.rule.conditions ≡ ok matcher
    pub holds : c.matcher ≡ get_or matcher always

  pub record IsRegistry (r : Registry) : Type 0 where
    pub distinct : Distinct name_of r
    pub sorted : IsSorted compiled_first r
    pub compiled : All IsCompiled r

  pub new_registry-IsRegistry : IsRegistry new_registry
  unfolding new_registry
  new_registry-IsRegistry = record { distinct = tt; sorted = tt; compiled = tt }

  All-put_named :
      (c : CompiledRule) (r : Registry)
      → IsCompiled c
      → All IsCompiled r
      → All IsCompiled (put_named name_of c r)
  unfolding put_named
  All-put_named c [] i all = (i, tt)
  All-put_named c (d ∷ r) i (j, all) = elim (Bool-cases (str_eq d.rule.name c.rule.name)) [
    | inl same ↦ rw same (i, all)
    | inr other ↦ rw other (j, All-put_named c r i all)
  ]

  sort_rules-IsRegistry :
      (r : Registry) → Distinct name_of r → All IsCompiled r → IsRegistry (sort_rules r)
  unfolding sort_rules
  sort_rules-IsRegistry r d all = record {
    distinct = sort-Distinct name_of compiled_first r d;
    sorted =
        sort-IsSorted compiled_first (λ a b. comes_first_total a.rule b.rule)
          (λ a b c. comes_first_trans a.rule b.rule c.rule) r;
    compiled = All-sort compiled_first IsCompiled r all;
  }

  add_built-IsRegistry :
      (rule : Rule) (built : Result (Option Matcher)) (r : Registry)
      → is_empty rule.name ≡ false
      → is_some rule.action ≡ true
      → build_matcher u e rule.conditions ≡ built
      → IsRegistry r
      → IsRegistry (add_built u e rule built r).1
  unfolding add_compiled
  add_built-IsRegistry rule (err error) r n a b i = i
  add_built-IsRegistry rule (ok m) r n a b i =
      let c : CompiledRule = record { rule = rule; matcher = get_or m always } in
      let good : IsCompiled c = record {
        named = n;
        acts = a;
        matcher = m;
        built = b;
        holds = refl;
      } in
      sort_rules-IsRegistry _ (put_named-Distinct name_of c r i.distinct)
        (All-put_named c r good i.compiled)

  pub add-IsRegistry :
      (rule : Option Rule) (r : Registry) → IsRegistry r → IsRegistry (add u e rule r).1
  unfolding add
  add-IsRegistry none r i = i
  add-IsRegistry (some rule) r i = elim (Bool-cases (is_empty rule.name)) [
    | inl blank ↦ rw blank i
    | inr named ↦ elim (Bool-cases (is_some rule.action)) [
      | inr idle ↦ rw (named, idle) i
      | inl acts ↦
          rw (named, acts)
            (add_built-IsRegistry rule (build_matcher u e rule.conditions) r named acts refl i)
    ]
  ]

  pub add_all-IsRegistry :
      (rules : List (Option Rule)) (r : Registry)
      → IsRegistry r
      → IsRegistry (add_all u e rules r).1
  unfolding add_all
  add_all-IsRegistry [] r i = i
  add_all-IsRegistry (rule ∷ rules) r i =
      let next = add-IsRegistry rule r i in
      elim (Bool-cases (is_some (add u e rule r).0)) [
        | inl failed ↦ rw failed next
        | inr fine ↦ rw fine (add_all-IsRegistry rules (add u e rule r).1 next)
      ]

  pub put_all-Distinct : (cs r : Registry) → Distinct name_of r → Distinct name_of (put_all cs r)
  put_all-Distinct [] r d = d
  put_all-Distinct (c ∷ cs) r d = put_all-Distinct cs _ (put_named-Distinct name_of c r d)

  put_all-IsCompiled :
      (cs r : Registry) → All IsCompiled cs → All IsCompiled r → All IsCompiled (put_all cs r)
  put_all-IsCompiled [] r i all = all
  put_all-IsCompiled (c ∷ cs) r (i, is) all = put_all-IsCompiled cs _ is (All-put_named c r i all)

  merge-IsRegistry :
      (source r : Registry) → IsRegistry source → IsRegistry r → IsRegistry (merge (some source) r)
  unfolding merge
  merge-IsRegistry source r s i =
      sort_rules-IsRegistry _ (put_all-Distinct source r i.distinct)
        (put_all-IsCompiled source r s.compiled i.compiled)

  All-delete :
      (P : CompiledRule → Type 0) (name : Str) (r : Registry)
      → All P r
      → All P (delete_named name_of name r)
  unfolding delete_named
  All-delete P name [] all = tt
  All-delete P name (d ∷ r) (j, all) = elim (Bool-cases (str_eq d.rule.name name)) [
    | inl same ↦ rw same all
    | inr other ↦ rw other (j, All-delete P name r all)
  ]

  IsSorted-delete :
      (name : Str) (r : Registry)
      → IsSorted compiled_first r
      → IsSorted compiled_first (delete_named name_of name r)
  unfolding delete_named
  IsSorted-delete name [] s = tt
  IsSorted-delete name (d ∷ r) (below, s) = elim (Bool-cases (str_eq d.rule.name name)) [
    | inl same ↦ rw same s
    | inr other ↦ rw other (All-delete _ name r below, IsSorted-delete name r s)
  ]

  remove-IsRegistry : (name : Str) (r : Registry) → IsRegistry r → IsRegistry (remove name r).1
  unfolding remove
  remove-IsRegistry name r i = elim (Bool-cases (has_name name_of name r)) [
    | inr absent ↦ rw absent i
    | inl present ↦ rw present (record {
      distinct = delete_named-Distinct name_of name r i.distinct;
      sorted = IsSorted-delete name r i.sorted;
      compiled = All-delete IsCompiled name r i.compiled;
    })
  ]

  -- The registries that the operations build.
  pub data Reachable : Registry → Type 0 where
    fresh : Reachable new_registry
    added : (rule : Option Rule) {r : Registry} → Reachable r → Reachable (add u e rule r).1
    added_all :
        (rules : List (Option Rule)) {r : Registry}
        → Reachable r
        → Reachable (add_all u e rules r).1
    removed : (name : Str) {r : Registry} → Reachable r → Reachable (remove name r).1
    cleared : {r : Registry} → Reachable r → Reachable (clear r)
    merged :
        {source r : Registry} → Reachable source → Reachable r → Reachable (merge (some source) r)

  -- Every registry that additions, removals, clearing and merging build has distinct names, stands
  -- sorted by falling priority and then by name, and holds named rules with an action, each with
  -- the matcher that its conditions compile to.
  pub Reachable-IsRegistry : (r : Registry) → Reachable r → IsRegistry r
  unfolding clear new_registry
  Reachable-IsRegistry _ fresh = new_registry-IsRegistry
  Reachable-IsRegistry _ (added rule {r} p) = add-IsRegistry rule r (Reachable-IsRegistry r p)
  Reachable-IsRegistry _ (added_all rules {r} p) =
      add_all-IsRegistry rules r (Reachable-IsRegistry r p)
  Reachable-IsRegistry _ (removed name {r} p) = remove-IsRegistry name r (Reachable-IsRegistry r p)
  Reachable-IsRegistry _ (cleared p) = new_registry-IsRegistry
  Reachable-IsRegistry _ (merged {source} {r} p q) =
      merge-IsRegistry source r (Reachable-IsRegistry source p) (Reachable-IsRegistry r q)
