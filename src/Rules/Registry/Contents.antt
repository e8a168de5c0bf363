-- ===== src/Rules/Registry/Contents.antt =====
-- The registry as a map from names to rules, which the operations update.
use klaudiush.Prelude.{
  ◌≡◌, ◌≢◌, refl, ap, ◌∙◌, inl, inr, false, Option, none, some, List, [], ◌∷◌, arith, Bool-cases,
  if◌then◌else◌,
}
use klaudiush.Prelude.Bytes.{Str, is_empty, str_eq}
use klaudiush.Prelude.Bytes.Laws.{str_eq_iff}
use klaudiush.Prelude.Maps.{get_or, is_some}
use klaudiush.Prelude.Named.{find_named, put_named, has_name, Distinct}
use klaudiush.Prelude.Named.Laws.{
  put_named-Distinct, find_named-put_named, find_named-delete_named, find_named-sort,
  find_named-absent, sort-Distinct, sort-Distinct,
}
use klaudiush.Prelude.Result.{ok, Result-cases}
use klaudiush.Prelude.Sort.{IsSorted}
use klaudiush.Prelude.Sort.Laws.{sort-IsSorted}
use klaudiush.Prelude.Unicode.{Unicode}
use klaudiush.Rules.Types.{Rule}
use klaudiush.Rules.Pattern.{Engines}
use klaudiush.Rules.Matcher.{Matcher, always}
use klaudiush.Rules.Matcher.Build.{build_matcher}
use klaudiush.Rules.Registry.{
  CompiledRule, Registry, name_of, rule_name, compiled_first, comes_first, sort_rules, add_compiled,
  add, remove, get, put_all, merge, put_rules, merge_rules,
}
use klaudiush.Rules.Registry.Laws.{
  IsRegistry, comes_first_total, comes_first_trans, put_all-Distinct,
}

-- The first of two answers that is one.
abbrev pub or_else {ℓ} : {A : Type ℓ} → Option A → Option A → Option A
or_else none o = o
or_else (some a) o = some a

or_else-none {ℓ} : {A : Type ℓ} (o : Option A) → or_else o none ≡ o
or_else-none none = refl
or_else-none (some a) = refl

find_named-add_compiled :
    (k : Str) (c : CompiledRule) (r : Registry)
    → Distinct name_of r
    → find_named name_of k (add_compiled c r)
      ≡ (if str_eq c.rule.name k then some c else find_named name_of k r)
unfolding add_compiled sort_rules
find_named-add_compiled k c r d =
    find_named-sort name_of compiled_first k _ (put_named-Distinct name_of c r d)
    ∙ find_named-put_named name_of k c r

module _ {ℓ} {A : Type ℓ} (name : A → Str) where
  -- The last element of that name.
  abbrev pub find_last : Str → List A → Option A
  find_last k [] = none
  find_last k (x ∷ xs) = or_else (find_last k xs) (if str_eq (name x) k then some x else none)

  find_last-absent : (k : Str) (xs : List A) → has_name name k xs ≡ false → find_last k xs ≡ none
  find_last-absent k [] h = refl
  find_last-absent k (x ∷ xs) h = ground (arith, find_last-absent k xs)

  find_last-Distinct :
      (k : Str) (xs : List A) → Distinct name xs → find_last k xs ≡ find_named name k xs
  unfolding find_named
  find_last-Distinct k [] d = refl
  find_last-Distinct k (x ∷ xs) (new, d) =
      ground (arith, new, str_eq_iff (name x) k, find_last-absent k xs, find_last-Distinct k xs d)

  find_named-put_rules :
      (put_all : List A → List A → List A)
      → ((r : List A) → put_all [] r ≡ r)
      → ((c : A) (cs r : List A) → put_all (c ∷ cs) r ≡ put_all cs (put_named name c r))
      → (k : Str) (cs r : List A)
      → find_named name k (put_all cs r) ≡ or_else (find_last k cs) (find_named name k r)
  find_named-put_rules put_all stop step k [] r = rw (stop r) refl
  find_named-put_rules put_all stop step k (c ∷ cs) r = rw (step c cs r) (
      ground (
        arith,
        find_named-put_rules put_all stop step k cs (put_named name c r),
        find_named-put_named name k c r,
      ))

module _ (u : Unicode) (e : Engines) where
  -- `Add` refuses and leaves the registry as it is, or afterwards the rule's name leads to the rule
  -- with the matcher of its conditions, or the one that accepts everything, and every other name
  -- leads where it did: in a registry that the operations built.
  pub get-add :
      (rule : Rule) (r : Registry) (k : Str)
      → IsRegistry u e r
      → (((add u e (some rule) r).0 ≢ none) → (add u e (some rule) r).1 ≡ r)
        × ((add u e (some rule) r).0 ≡ none
            → (o : Option Matcher) × (build_matcher u e rule.conditions ≡ ok o)
              × (get k (add u e (some rule) r).1 ≡ (
                  if str_eq rule.name k
                  then some (record { rule = rule; matcher = get_or o always })
                  else get k r)))
  unfolding add get
  get-add rule r k i = elim (Bool-cases (is_empty rule.name)) [
    | inl blank ↦ rw blank (λ h. refl, λ h. cc)
    | inr named ↦ elim (Bool-cases (is_some rule.action)) [
      | inr idle ↦ rw (named, idle) (λ h. refl, λ h. cc)
      | inl acts ↦ elim (Result-cases (build_matcher u e rule.conditions)) [
        | inr (error, failed) ↦ rw (named, acts, failed) (λ h. refl, λ h. cc)
        | inl (o, built) ↦
            rw (named, acts, built)
              (λ h. absurd (h refl), λ h. (o, refl, find_named-add_compiled k _ r i.distinct))
      ]
    ]
  ]

  -- `Remove` takes the rule of that name away and leaves every other: in a registry that the
  -- operations built.
  pub get-remove :
      (name : Str) (r : Registry) (k : Str)
      → IsRegistry u e r
      → get k (remove name r).1 ≡ (if str_eq name k then none else get k r)
  unfolding remove get
  get-remove name r k i = elim (Bool-cases (has_name name_of name r)) [
    | inl present ↦ rw present (find_named-delete_named name_of name k r i.distinct)
    | inr absent ↦
        rw absent
          (ground (arith, absent, str_eq_iff name k, find_named-absent name_of name r absent))
  ]

  -- After `Merge` a name leads to the rule of the source, if it has one, else where it did: in
  -- registries that the operations built.
  pub get-merge :
      (source r : Registry) (k : Str)
      → IsRegistry u e source
      → IsRegistry u e r
      → get k (merge (some source) r) ≡ or_else (get k source) (get k r)
  unfolding merge get sort_rules
  get-merge source r k s i =
      find_named-sort name_of compiled_first k _ (put_all-Distinct u e source r i.distinct)
      ∙ find_named-put_rules name_of put_all (λ r. refl) (λ c cs r. refl) k source r
      ∙ ap (λ o. or_else o (find_named name_of k r))
          (find_last-Distinct name_of k source s.distinct)

put_rules-Distinct :
    (xs merged : List Rule) → Distinct rule_name merged → Distinct rule_name (put_rules xs merged)
put_rules-Distinct [] merged d = d
put_rules-Distinct (x ∷ xs) merged d =
    put_rules-Distinct xs _ (put_named-Distinct rule_name x merged d)

-- `MergeRules` returns rules with distinct names, by falling priority and then by name. A name is
-- that of the last rule of that name in the overriding list, if there is one, else in the base.
pub merge_rules_overrides :
    (base override : List Rule) (k : Str)
    → Distinct rule_name (merge_rules base override)
      × IsSorted comes_first (merge_rules base override)
      × (find_named rule_name k (merge_rules base override)
          ≡ or_else (find_last rule_name k override) (find_last rule_name k base))
unfolding merge_rules find_named
merge_rules_overrides base override k =
    let of_base = put_rules base [] in
    let distinct = put_rules-Distinct override of_base (put_rules-Distinct base [] tt) in
    let find = find_named-put_rules rule_name put_rules (λ r. refl) (λ c cs r. refl) k in
    (
      sort-Distinct rule_name comes_first _ distinct,
      sort-IsSorted comes_first comes_first_total comes_first_trans _,
      find_named-sort rule_name comes_first k _ distinct
          ∙ find override of_base
          ∙ ap (or_else (find_last rule_name k override)) (find base [] ∙ or_else-none _),
    )
