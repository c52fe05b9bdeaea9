-- ===== src/ConfigMap/Tests.antt =====
-- A merge of two trees, and the theorem at them.
use gas.Prelude.{String, ◌≡◌, refl, some, [], ◌∷◌}
use gas.ConfigMap.{scalar, tree, Tree, empty, entry, put, merged, merge_without_override}
use gas.ConfigMap.Merge.{scalar_at, scalar_at-merge_without_override}

-- { db: { port: 1 } } and { db: { port: 2, host: 3 }, log: 4 }
abbrev dst : Tree
dst = entry "db" (tree (entry "port" (scalar 1) empty)) empty

abbrev src : Tree
src =
    entry "db" (tree (entry "port" (scalar 2) (entry "host" (scalar 3) empty)))
      (entry "log" (scalar 4) empty)

abbrev normal_key : String → String
normal_key k = k

host_added :
    scalar_at ("db" ∷ "host" ∷ []) (tree (merge_without_override normal_key dst src)) ≡ some 3
unfolding merged put
host_added = refl

scalar_at-merge_without_override_example :
    scalar_at ("db" ∷ "port" ∷ []) (tree (merge_without_override normal_key dst src)) ≡ some 1
scalar_at-merge_without_override_example =
    scalar_at-merge_without_override normal_key dst src ("db" ∷ "port" ∷ []) 1 refl
