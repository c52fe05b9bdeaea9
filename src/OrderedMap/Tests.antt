-- ===== src/OrderedMap/Tests.antt =====
-- Runs of the ordered map, and the theorems at a concrete map.
use gas.Prelude.{ℕ, nat_eq, ◌≡◌, refl, [], ◌∷◌, length}
use gas.Maps
use gas.OrderedMap.{OrderedMap, len, has, get, set, remove, all, empty}
use gas.OrderedMap.Refinement.{IsValid, empty-IsValid, set-IsValid, operations-all}

abbrev two : OrderedMap ℕ ℕ
two = record { m = (4, 1) ∷ (2, 6) ∷ []; keys = 4 ∷ 2 ∷ [] }

two_built : set (set empty 4 1) 2 6 ≡ two
unfolding set
two_built = refl

set_in_place : all 0 (set two 4 9) ≡ (4, 9) ∷ (2, 6) ∷ []
unfolding set all
set_in_place = refl

remove_first : all 0 (remove two 4) ≡ (2, 6) ∷ []
unfolding remove all
remove_first = refl

two-IsValid : IsValid two
unfolding set
two-IsValid = set-IsValid _ 2 6 (set-IsValid empty 4 1 empty-IsValid)

operations-all_example :
    (all 0 (set two 4 9) ≡ Maps.insert 4 9 (all 0 two))
    × (all 0 (remove two 4) ≡ Maps.delete 4 (all 0 two))
    × (get two 4 ≡ Maps.lookup 4 (all 0 two))
    × (has two 4 ≡ Maps.has 4 (all 0 two))
    × (len two ≡ length (all 0 two))
operations-all_example = operations-all 0 two 4 9 two-IsValid
