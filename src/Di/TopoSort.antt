-- ===== src/Di/TopoSort.antt =====
-- topoSort and topoSortOrder of service_registry.go: Kahn's algorithm over the registrations.
pub mod Step
pub mod Start
pub mod Counts
pub mod Kahn
pub mod Order
pub mod Correct
use gas.Prelude.{
  ℕ, zero, suc, ◌+◌, ◌-◌, nat_eq, ◌==◌, Bool, false, Option, none, some, List, [], ◌∷◌, ◌++◌,
  if◌then◌else◌, length,
}
use gas.OrderedMap.{OrderedMap, empty, len, has, get, set, all}
use gas.Di.{
  singleton, TypeId, Registration, Result, ok, err, circular_dependency, out_of_fuel, alias_target,
}

-- The value that `v, _ := m.Get(t)` binds.
abbrev pub or_zero : Option ℕ → ℕ
or_zero none = 0
or_zero (some n) = n

abbrev pub or_empty : Option (List TypeId) → List TypeId
or_empty none = []
or_empty (some ts) = ts

abbrev pub Deps : Type 0
Deps = OrderedMap TypeId (List TypeId)

abbrev pub Degrees : Type 0
Degrees = OrderedMap TypeId ℕ

module _ (aliases : OrderedMap TypeId TypeId) where
  -- `for in := range ctorType.Ins() { … }`
  pub add_ins : TypeId → List TypeId → Deps → Deps
  add_ins t [] deps = deps
  add_ins t (i ∷ ins) deps =
      add_ins t ins (set deps t (or_empty (get deps t) ++ alias_target aliases i ∷ []))

  pub add_deps : List (TypeId × Registration) → Deps → Deps
  add_deps [] deps = deps
  add_deps ((t, reg) ∷ regs) deps = add_deps regs (add_ins t reg.ctor.ins deps)

module _ (regs : OrderedMap TypeId Registration) where
  -- `for _, d := range a { … }`
  pub count_deps : TypeId → List TypeId → Degrees → Degrees
  count_deps t [] degrees = degrees
  count_deps t (d ∷ ds) degrees =
      count_deps t ds (if has regs d then set degrees t (or_zero (get degrees t) + 1) else degrees)

  pub count_all : Deps → List TypeId → Degrees → Degrees
  count_all deps [] degrees = degrees
  count_all deps (t ∷ ts) degrees =
      count_all deps ts
        (count_deps t (or_empty (get deps t)) (if has degrees t then degrees else set degrees t 0))

-- `if deg == 0 { queue = append(queue, t) }`
pub zero_degrees : List (TypeId × ℕ) → List TypeId
zero_degrees [] = []
zero_degrees ((t, deg) ∷ rest) = if deg == 0 then t ∷ zero_degrees rest else zero_degrees rest

-- The inner loop over the dependencies of `t`. In Go the count is an int, and is compared with 0
-- after the decrement: `v - 1 == 0` is the test `v == 1`, also where `v` is 0.
pub visit_deps : TypeId → TypeId → List TypeId → Degrees × List TypeId → Degrees × List TypeId
visit_deps curr t [] state = state
visit_deps curr t (dep ∷ d) (degrees, queue) = visit_deps curr t d (
    if dep == curr
    then (
      set degrees t (or_zero (get degrees t) - 1),
      (if or_zero (get degrees t) == 1 then queue ++ t ∷ [] else queue),
    )
    else (degrees, queue))

pub visit_all : TypeId → List (TypeId × List TypeId) → Degrees × List TypeId → Degrees × List TypeId
visit_all curr [] state = state
visit_all curr ((t, d) ∷ deps) state = visit_all curr deps (visit_deps curr t d state)

-- `for len(queue) > 0 { … }`. No fuel is needed for the last test of the loop.
pub topo_sort_order :
    ℕ → List (TypeId × List TypeId) → List TypeId → Degrees → List TypeId → Option (List TypeId)
topo_sort_order fuel deps order degrees [] = some order
topo_sort_order zero deps order degrees (curr ∷ queue) = none
topo_sort_order (suc fuel) deps order degrees (curr ∷ queue) =
    let next = visit_all curr deps (degrees, queue) in
    topo_sort_order fuel deps (order ++ curr ∷ []) next.0 next.1

-- `if len(order) != regs.Len() { … }`
pub check_order : OrderedMap TypeId Registration → Option (List TypeId) → Result (List TypeId)
check_order regs none = err out_of_fuel
check_order regs (some order) =
    if length order == len regs then ok order else err circular_dependency

abbrev pub zero_registration : Registration
zero_registration = record {
  ctor = record { is_func = false; is_variadic = false; ins = []; outs = [] };
  lifetime = singleton;
}

module _ (aliases : OrderedMap TypeId TypeId) (regs : OrderedMap TypeId Registration) where
  unfoldable pub deps_of : Deps
  unfolding add_deps add_ins
  deps_of = add_deps aliases (all zero_registration regs) empty

  unfoldable pub in_degree : Degrees
  unfolding count_all count_deps deps_of
  in_degree = count_all regs deps_of regs.keys empty

  unfoldable pub topo_sort : Result (List TypeId)
  unfolding in_degree zero_degrees topo_sort_order visit_all visit_deps check_order
  topo_sort =
      check_order regs
        (topo_sort_order (len regs) (all [] deps_of) [] in_degree (zero_degrees (all 0 in_degree)))
