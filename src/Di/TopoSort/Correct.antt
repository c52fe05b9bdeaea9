-- ===== src/Di/TopoSort/Correct.antt =====
-- What topoSort returns: an order in which every type stands behind its dependencies, and the
-- error for a cycle only where there is one.
use gas.Prelude.{
  ℕ, zero, suc, ◌<◌, nat_eq, ◌==◌, ◌≡◌, ◌≢◌, ◌∙◌, ap, subst, true, not, some, List, [],
  if◌then◌else◌, arith, contains, Distinct, Bool-cases, inl, inr, length, length-le_of_subset,
  contains_of_length, keep_if, contains-keep_if,
}
use gas.OrderedMap.{OrderedMap, len}
use gas.OrderedMap.Refinement.{IsValid}
use gas.Di.{TypeId, Registration, ok, err, circular_dependency, DiError}
use gas.Di.TopoSort.{check_order, topo_sort}
use gas.Di.TopoSort.Start.{dependencies}
use gas.Di.TopoSort.Kahn.{rest_of}
use gas.Di.TopoSort.Order.{IsOrdered, Finished, run, some_remaining}

module _ (aliases : OrderedMap TypeId TypeId) (regs : OrderedMap TypeId Registration)
    (valid : IsValid regs) where
  -- The list has the length of the registrations exactly if it holds all of them.
  full :
      (order : List TypeId)
      → Finished aliases regs valid order
      → length order ≡ length regs.keys
      → (t : TypeId) → contains order t ≡ contains regs.keys t
  full order f same t = ground (
    arith,
    f.zero t,
    contains_of_length order regs.keys f.once valid.once (λ u c. ground (arith, f.zero u)) same t,
  )

  checked :
      (order : List TypeId)
      → check_order regs (some order)
        ≡ (if length order == length regs.keys then ok order else err circular_dependency)
  unfolding check_order len
  checked order = rw valid.counted

  topo_sort-run :
      (final : List TypeId) × (topo_sort aliases regs
        ≡ (if length final == length regs.keys then ok final else err circular_dependency))
      × Finished aliases regs valid final
  unfolding topo_sort
  topo_sort-run =
      let (final, e, f) = run aliases regs valid in
      (final, ap (check_order regs) e ∙ checked final, f)

  -- An order that topoSort returns holds each registered type once and no other type, and each type
  -- stands behind all of its dependencies, taken through the aliases, that are registered.
  pub topo_sort-IsOrdered :
      (order : List TypeId)
      → topo_sort aliases regs ≡ ok order
      → Distinct order
        × ((t : TypeId) → contains order t ≡ contains regs.keys t)
        × IsOrdered aliases regs [] order
  topo_sort-IsOrdered order h =
      let (final, e, f) = topo_sort-run in
      let same : final ≡ order = ground (arith, e, h) in
      let all_placed : length final ≡ length regs.keys = ground (arith, e, h) in
      subst
        (λ l.
          Distinct l
          × ((t : TypeId) → contains l t ≡ contains regs.keys t)
          × IsOrdered aliases regs [] l)
        same (f.once, full final f all_placed, f.ordered)

  descent :
      (rank : TypeId → ℕ)
      → ((t d : TypeId)
          → contains regs.keys t ≡ true
          → contains (dependencies aliases regs t) d ≡ true
          → contains regs.keys d ≡ true
          → rank d < rank t)
      → (order : List TypeId) → Finished aliases regs valid order
      → (n : ℕ) (t : TypeId) → rank t < n
      → contains regs.keys t ≡ true
      → contains order t ≡ true
  descent rank ranked order f zero t below r = elim below [ ]
  descent rank ranked order f (suc n) t below r =
      elim (Bool-cases (rest_of aliases regs valid order t == 0)) [
        | inl done ↦ ground (arith, f.zero t)
        | inr more ↦
            let (d, dep, reg, out) =
              some_remaining aliases regs valid order (dependencies aliases regs t)
                (ground arith) in
            let there = descent rank ranked order f n d (omega (arith, ranked t d r dep reg)) reg in
            cc
      ]

  -- Where some ranking puts every registered dependency below its type, so that there is no cycle,
  -- topoSort succeeds.
  pub topo_sort-acyclic :
      (rank : TypeId → ℕ)
      → ((t d : TypeId)
          → contains regs.keys t ≡ true
          → contains (dependencies aliases regs t) d ≡ true
          → contains regs.keys d ≡ true
          → rank d < rank t)
      → (order : List TypeId) × (topo_sort aliases regs ≡ ok order)
  topo_sort-acyclic rank ranked =
      let (final, e, f) = topo_sort-run in
      let upper =
        length-le_of_subset final regs.keys f.once valid.once (λ t c. ground (arith, f.zero t)) in
      let lower =
        length-le_of_subset regs.keys final valid.once f.once
          (λ t c. descent rank ranked final f (suc (rank t)) t (omega arith) c) in
      (final, ground (arith, e))

  unplaced : List TypeId → List TypeId
  unplaced order = keep_if (λ t. not (contains order t)) regs.keys

  -- When topoSort fails, its error is the one for a cycle, and there is one: some registered types,
  -- at least one, each of which depends on a type among them, itself or another.
  pub topo_sort-err :
      (e : DiError)
      → topo_sort aliases regs ≡ err e
      → (e ≡ circular_dependency)
        × (stuck : List TypeId) × (stuck ≢ [])
        × ((t : TypeId)
            → contains stuck t ≡ true
            → (contains regs.keys t ≡ true)
              × (d : TypeId) × (contains (dependencies aliases regs t) d ≡ true)
              × (contains stuck d ≡ true))
  unfolding unplaced
  topo_sort-err e h =
      let (final, run_eq, f) = topo_sort-run in
      let stuck_iff = λ (t : TypeId). contains-keep_if (λ u. not (contains final u)) regs.keys t in
      (
        ground (arith, run_eq, h),
        unplaced final,
        (λ none_left.
            let lower =
              length-le_of_subset regs.keys final valid.once f.once
                (λ t c. ground (arith, stuck_iff t, none_left)) in
            let upper =
              length-le_of_subset final regs.keys f.once valid.once
                (λ t c. ground (arith, f.zero t)) in
            ground (arith, run_eq, h)),
        (λ t c.
            let (d, dep, reg, out) =
              some_remaining aliases regs valid final (dependencies aliases regs t)
                (ground (arith, f.zero t, stuck_iff t)) in
            (ground (arith, stuck_iff t), d, dep, ground (arith, stuck_iff d))),
      )
