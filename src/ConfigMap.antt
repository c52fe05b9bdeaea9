-- ===== src/ConfigMap.antt =====
-- config/internal/maputils/merge.go: the merge of configuration trees. A tree is a Go map from keys
-- to values, as the list of its entries; a value is a map or anything else, which is named by a
-- number. strings.ToLower after strings.TrimSpace is the parameter `normal_key`. What a later merge
-- into a shared map changes in the source tree is not modelled.
pub mod Merge
pub mod Tests
use gas.Prelude.{ℕ, String, string_eq, ◌==◌, Option, none, some, if◌then◌else◌}

mutual
  pub data Value : Type 0 where
    scalar : ℕ → Value
    tree : Tree → Value

  pub data Tree : Type 0 where
    empty : Tree
    entry : String → Value → Tree → Tree

abbrev pub lookup : String → Tree → Option Value
lookup k empty = none
lookup k (entry j v rest) = if j == k then some v else lookup k rest

abbrev pub insert : String → Value → Tree → Tree
insert k v empty = entry k v empty
insert k v (entry j w rest) = if j == k then entry k v rest else entry j w (insert k v rest)

module _ (normal_key : String → String) where
  -- `if normalK == "" { continue }`, and the rest of the loop's body on the merged value.
  unfoldable pub put : String → Value → Tree → Tree
  put k v dst = if k == "" then dst else insert k v dst

  -- What stays under a key that dst has: two maps merge, and dst's value stays elsewhere.
  mutual
    unfolding put

    pub merged : Value → Value → Value
    merged (tree dm) (tree sm) = tree (merge_without_override dm sm)
    merged (tree dm) (scalar b) = tree dm
    merged (scalar a) v = scalar a

    pub merge_without_override : Tree → Tree → Tree
    merge_without_override dst empty = dst
    merge_without_override dst (entry k v src) =
        merge_without_override
          (put (normal_key k)
            (elim (lookup (normal_key k) dst) [ none ↦ v | some dv ↦ merged dv v ]) dst)
          src
