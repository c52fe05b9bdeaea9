-- ===== src/ConfigMap/Merge.antt =====
-- Nothing that the destination holds is overridden.
use gas.Prelude.{
  ℕ, String, string_eq, ◌==◌, ◌≡◌, refl, Option, none, some, List, [], ◌∷◌, if◌then◌else◌, arith,
  Bool-cases, Option-cases, inl, inr,
}
use gas.ConfigMap.{
  Value, scalar, tree, Tree, empty, entry, lookup, insert, put, merged, merge_without_override,
}

-- The value that is no map at the end of a path of keys
abbrev pub scalar_at : List String → Value → Option ℕ
scalar_at [] (scalar a) = some a
scalar_at [] (tree t) = none
scalar_at (k ∷ path) (scalar a) = none
scalar_at (k ∷ path) (tree t) = elim (lookup k t) [ none ↦ none | some v ↦ scalar_at path v ]

lookup-insert :
    (k j : String) (v : Value) (t : Tree)
    → lookup j (insert k v t) ≡ (if k == j then some v else lookup j t)
lookup-insert k j v empty = refl
lookup-insert k j v (entry i w t) =
    ground (
      arith,
      lookup-insert k j v t,
      string_eq.eq_iff k j,
      string_eq.eq_iff i k,
      string_eq.eq_iff i j,
    )

module _ (normal_key : String → String) where
  lookup-put :
      (k j : String) (v : Value) (t : Tree)
      → lookup j (put normal_key k v t)
        ≡ (if k == "" then lookup j t else (if k == j then some v else lookup j t))
  unfolding put
  lookup-put k j v t = elim (Bool-cases (k == "")) [
    | inl blank ↦ rw (put, blank)
    | inr named ↦ rw (put, named) (lookup-insert k j v t)
  ]

  -- One entry of the source: `w` is what the destination then holds under its key.
  put-scalar_at :
      (k j : String) (path : List String) (a : ℕ) (w : Value) (dst : Tree)
      → ((dv : Value)
          → lookup k dst ≡ some dv
          → scalar_at path dv ≡ some a
          → scalar_at path w ≡ some a)
      → scalar_at (j ∷ path) (tree dst) ≡ some a
      → scalar_at (j ∷ path) (tree (put normal_key k w dst)) ≡ some a
  put-scalar_at k j path a w dst keeps h = elim (Option-cases (lookup j dst)) [
    | inl missing ↦ ground (arith, missing)
    | inr (dv, found) ↦ elim (Bool-cases (k == "")) [
      | inl blank ↦ rw (scalar_at, lookup-put k j w dst, blank) h
      | inr named ↦ elim (Bool-cases (k == j)) [
        | inl same ↦
            rw (scalar_at, lookup-put k j w dst, named, same)
              (keeps dv (ground (arith, found, string_eq.eq_iff k j)) (ground (arith, found)))
        | inr apart ↦ rw (scalar_at, lookup-put k j w dst, named, apart) h
      ]
    ]
  ]

  mutual
    unfolding merged merge_without_override

    keeps_value :
        (dv v : Value) (path : List String) (a : ℕ)
        → scalar_at path dv ≡ some a
        → scalar_at path (merged normal_key dv v) ≡ some a
    keeps_value (tree dm) (tree sm) path a h = keeps_tree dm sm path a h
    keeps_value (tree dm) (scalar b) path a h = h
    keeps_value (scalar x) v path a h = h

    keeps_tree :
        (dst src : Tree) (path : List String) (a : ℕ)
        → scalar_at path (tree dst) ≡ some a
        → scalar_at path (tree (merge_without_override normal_key dst src)) ≡ some a
    keeps_tree dst empty path a h = h
    keeps_tree dst (entry k v src) [] a h = cc
    keeps_tree dst (entry k v src) (j ∷ path) a h = keeps_tree _ src (j ∷ path) a (
        put-scalar_at (normal_key k) j path a _ dst
          (λ dv found before. rw (found) (keeps_value dv v path a before)) h)

  -- Every value at the end of a path in the destination, other than a map, is there after
  -- MergeWithoutOverride, whatever the source holds.
  pub scalar_at-merge_without_override :
      (dst src : Tree) (path : List String) (a : ℕ)
      → scalar_at path (tree dst) ≡ some a
      → scalar_at path (tree (merge_without_override normal_key dst src)) ≡ some a
  scalar_at-merge_without_override = keeps_tree
