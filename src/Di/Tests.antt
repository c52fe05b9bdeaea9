-- ===== src/Di/Tests.antt =====
-- Runs of the container's algorithms, and the theorems at concrete registrations.
use gas.Prelude.{◌<◌, nat_eq, ◌≡◌, ◌≢◌, refl, true, false, List, [], ◌∷◌, arith, contains, Distinct}
use gas.OrderedMap.{OrderedMap, empty, set, all, get, has, len}
use gas.OrderedMap.Refinement.{IsValid, empty-IsValid, set-IsValid}
use gas.Di.{TypeId, Registration, singleton, ok, err, circular_dependency, alias_target}
use gas.Di.TopoSort.{topo_sort}
use gas.Di.TopoSort.Start.{dependencies}
use gas.Di.TopoSort.Order.{IsOrdered}
use gas.Di.TopoSort.Correct.{topo_sort-IsOrdered, topo_sort-err}

abbrev reg : List TypeId → Registration
reg ins = record {
  ctor = record { is_func = true; is_variadic = false; ins = ins; outs = [] };
  lifetime = singleton;
}

-- Type 9 is an alias of 1; 1 wants 2 twice and 4, 3 wants 9, 2 wants the unregistered 7.
abbrev aliases : OrderedMap TypeId TypeId
aliases = record { m = (9, 1) ∷ []; keys = 9 ∷ [] }

abbrev entries : List (TypeId × Registration)
entries = (3, reg (9 ∷ [])) ∷ (1, reg (2 ∷ 2 ∷ 4 ∷ [])) ∷ (2, reg (7 ∷ [])) ∷ (4, reg []) ∷ []

abbrev regs : OrderedMap TypeId Registration
regs = record { m = entries; keys = 3 ∷ 1 ∷ 2 ∷ 4 ∷ [] }

regs-IsValid : IsValid regs
unfolding set
regs-IsValid = set-IsValid _ 4 (reg []) (
    set-IsValid _ 2 (reg (7 ∷ []))
      (set-IsValid _ 1 (reg (2 ∷ 2 ∷ 4 ∷ [])) (set-IsValid empty 3 (reg (9 ∷ [])) empty-IsValid)))

sorted : topo_sort aliases regs ≡ ok (2 ∷ 4 ∷ 1 ∷ 3 ∷ [])
unfolding topo_sort all get set has alias_target len
sorted = refl

-- 1 and 2 want each other.
abbrev cyclic : OrderedMap TypeId Registration
cyclic = record { m = (1, reg (2 ∷ [])) ∷ (2, reg (1 ∷ [])) ∷ []; keys = 1 ∷ 2 ∷ [] }

cyclic-IsValid : IsValid cyclic
unfolding set
cyclic-IsValid = set-IsValid _ 2 (reg (1 ∷ [])) (set-IsValid empty 1 (reg (2 ∷ [])) empty-IsValid)

cycle_found : topo_sort aliases cyclic ≡ err circular_dependency
unfolding topo_sort all get set has alias_target len
cycle_found = refl

topo_sort-IsOrdered_example :
    Distinct {A = TypeId} (2 ∷ 4 ∷ 1 ∷ 3 ∷ [])
    × ((t : TypeId) → contains (2 ∷ 4 ∷ 1 ∷ 3 ∷ []) t ≡ contains regs.keys t)
    × IsOrdered aliases regs [] (2 ∷ 4 ∷ 1 ∷ 3 ∷ [])
topo_sort-IsOrdered_example =
    topo_sort-IsOrdered aliases regs regs-IsValid (2 ∷ 4 ∷ 1 ∷ 3 ∷ []) sorted

topo_sort-err_example :
    (circular_dependency ≡ circular_dependency)
    × (stuck : List TypeId) × (stuck ≢ [])
    × ((t : TypeId)
        → contains stuck t ≡ true
        → (contains cyclic.keys t ≡ true)
          × (d : TypeId) × (contains (dependencies aliases cyclic t) d ≡ true)
          × (contains stuck d ≡ true))
topo_sort-err_example = topo_sort-err aliases cyclic cyclic-IsValid circular_dependency cycle_found

-- 2 wants 1, and 1 wants what is not registered.
abbrev chain : OrderedMap TypeId Registration
chain = record { m = (1, reg (7 ∷ [])) ∷ (2, reg (1 ∷ [])) ∷ []; keys = 1 ∷ 2 ∷ [] }

chain-IsValid : IsValid chain
unfolding set
chain-IsValid = set-IsValid _ 2 (reg (1 ∷ [])) (set-IsValid empty 1 (reg (7 ∷ [])) empty-IsValid)

chain-ranked :
    (t d : TypeId)
    → contains chain.keys t ≡ true
    → contains (dependencies aliases chain t) d ≡ true
    → contains chain.keys d ≡ true
    → d < t
unfolding get alias_target
chain-ranked t d r dep c = ground arith
