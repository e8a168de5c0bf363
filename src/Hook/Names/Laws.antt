-- ===== src/Hook/Names/Laws.antt =====
-- The aliases of an event or a tool hold no name twice.
use klaudiush.Prelude.{◌≡◌, inl, inr, false, List, [], ◌∷◌, ◌++◌, any, All, arith, Bool-cases}
use klaudiush.Prelude.Bytes.{Str, is_empty}
use klaudiush.Prelude.Bytes.Text.{trim_space}
use klaudiush.Prelude.Unicode.{Unicode}
use klaudiush.Hook.{Context}
use klaudiush.Hook.Names.{
  append_unique_fold, append_all, event_candidates, tool_candidates, event_names, tool_names,
}

module _ (u : Unicode) where
  -- No later name equals an earlier one without case, and none is blank.
  abbrev pub IsUnique : List Str → Type 0
  IsUnique [] = Unit
  IsUnique (x ∷ xs) =
      (is_empty (trim_space x) ≡ false) × All (λ y. u.equal_fold x y ≡ false) xs × IsUnique xs

  All-snoc : (P : Str → Type 0) (xs : List Str) (x : Str) → All P xs → P x → All P (xs ++ x ∷ [])
  All-snoc P [] x ps p = (p, tt)
  All-snoc P (y ∷ ys) x (q, qs) p = (q, All-snoc P ys x qs p)

  IsUnique-snoc :
      (xs : List Str) (x : Str)
      → is_empty (trim_space x) ≡ false
      → any (λ y. u.equal_fold y x) xs ≡ false
      → IsUnique xs
      → IsUnique (xs ++ x ∷ [])
  IsUnique-snoc [] x given new i = (given, tt, tt)
  IsUnique-snoc (y ∷ ys) x given new (g, apart, i) = (
    g,
    All-snoc _ ys x apart (ground (arith, new)),
    IsUnique-snoc ys x given (ground (arith, new)) i,
  )

  append_unique_fold-IsUnique :
      (xs : List Str) (x : Str) → IsUnique xs → IsUnique (append_unique_fold u xs x)
  unfolding append_unique_fold
  append_unique_fold-IsUnique xs x i = elim (Bool-cases (is_empty (trim_space x))) [
    | inl blank ↦ rw blank i
    | inr given ↦ elim (Bool-cases (any (λ y. u.equal_fold y x) xs)) [
      | inl known ↦ rw (given, known) i
      | inr new ↦ rw (given, new) (IsUnique-snoc xs x given new i)
    ]
  ]

  append_all-IsUnique : (xs ys : List Str) → IsUnique xs → IsUnique (append_all u xs ys)
  unfolding append_all
  append_all-IsUnique xs [] i = i
  append_all-IsUnique xs (y ∷ ys) i =
      append_all-IsUnique (append_unique_fold u xs y) ys (append_unique_fold-IsUnique xs y i)

  -- The names of a hook's event, and those of its tool, are not blank, and no two of them are the
  -- same without case.
  pub names-IsUnique : (c : Context) → IsUnique (event_names u c) × IsUnique (tool_names u c)
  unfolding event_names tool_names
  names-IsUnique c = (
    append_all-IsUnique [] (event_candidates c) tt,
    append_all-IsUnique [] (tool_candidates c) tt,
  )
