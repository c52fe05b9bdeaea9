-- ===== src/Di/TopoSort/Order.antt =====
-- The loop of topoSortOrder ends within its fuel, with an ordered list of all that can be placed.
use gas.Prelude.{
  ℕ, zero, suc, ◌+◌, ◌≤◌, nat_eq, ◌==◌, ◌≡◌, ◌≢◌, refl, sym, ◌∙◌, subst, true, false, ◌&&◌, not,
  some, List, [], ◌∷◌, ◌++◌, arith, contains, contains-append, Distinct, nat_beq_iff, append_assoc,
  append-nil, Bool-cases, inl, inr, length, length-append, length-le_of_subset,
}
use gas.OrderedMap.{OrderedMap, len, has}
use gas.OrderedMap.Refinement.{IsValid}
use gas.Di.{TypeId, Registration}
use gas.Di.TopoSort.{Degrees, visit_all, topo_sort_order, in_degree}
use gas.Di.TopoSort.Start.{dependencies}
use gas.Di.TopoSort.Counts.{
  remaining, degree-in_degree, first_queue, contains-first_queue, Distinct-first_queue,
}
use gas.Di.TopoSort.Kahn.{entries, rest_of, Inv, Inv-step}

-- Every dependency of `t` that has a constructor is among `seen`.
abbrev pub DepsIn :
    OrderedMap TypeId TypeId → OrderedMap TypeId Registration → List TypeId → TypeId → Type 0
DepsIn aliases regs seen t =
    (d : TypeId)
    → contains (dependencies aliases regs t) d ≡ true
    → contains regs.keys d ≡ true
    → contains seen d ≡ true

-- Each type of the list stands behind its dependencies.
abbrev pub IsOrdered :
    OrderedMap TypeId TypeId → OrderedMap TypeId Registration → List TypeId → List TypeId → Type 0
IsOrdered aliases regs seen [] = Unit
IsOrdered aliases regs seen (t ∷ ts) =
    DepsIn aliases regs seen t × IsOrdered aliases regs (seen ++ t ∷ []) ts

module _ (aliases : OrderedMap TypeId TypeId) (regs : OrderedMap TypeId Registration)
    (valid : IsValid regs) where
  IsOrdered-snoc :
      (seen ts : List TypeId) (t : TypeId)
      → IsOrdered aliases regs seen ts
      → DepsIn aliases regs (seen ++ ts) t
      → IsOrdered aliases regs seen (ts ++ t ∷ [])
  IsOrdered-snoc seen [] t o h = (subst (λ l. DepsIn aliases regs l t) (append-nil seen) h, tt)
  IsOrdered-snoc seen (u ∷ ts) t o h = (
    o.0,
    IsOrdered-snoc (seen ++ u ∷ []) ts t o.1
        (subst (λ l. DepsIn aliases regs l t) (sym (append_assoc seen (u ∷ []) ts)) h),
  )

  -- Nothing is left to place: all are placed.
  none_remaining :
      (order ds : List TypeId) (d : TypeId)
      → remaining regs order ds ≡ 0
      → contains ds d ≡ true
      → contains regs.keys d ≡ true
      → contains order d ≡ true
  unfolding has
  none_remaining order [] d z c r = cc
  none_remaining order (x ∷ ds) d z c r =
      ground (arith, none_remaining order ds d, nat_beq_iff x d, valid.same d)

  -- Something is left: a dependency with a constructor that is not placed.
  pub some_remaining :
      (order ds : List TypeId)
      → remaining regs order ds ≢ 0
      → (d : TypeId) × (contains ds d ≡ true)
        × (contains regs.keys d ≡ true)
        × (contains order d ≡ false)
  unfolding has
  some_remaining order [] z = absurd (z refl)
  some_remaining order (x ∷ ds) z = elim (Bool-cases (has regs x && not (contains order x))) [
    | inl left ↦ (x, ground (arith, nat_beq_iff x x), ground (arith, valid.same x), ground arith)
    | inr placed ↦
        let (d, c, r, o) = some_remaining order ds (λ none_left. z (ground arith)) in
        (d, ground arith, r, o)
  ]

  start : Inv aliases regs valid [] (first_queue aliases regs valid) (in_degree aliases regs)
  start = record {
    counts = λ t. degree-in_degree aliases regs valid t;
    zero =
        λ t. contains-first_queue aliases regs valid t ∙ rw (degree-in_degree aliases regs valid t);
    once = Distinct-first_queue aliases regs valid;
  }

  -- What holds when the queue is empty.
  pub record Finished (order : List TypeId) : Type 0 where
    pub zero :
        (t : TypeId)
        → contains order t ≡ (contains regs.keys t && (rest_of aliases regs valid order t == 0))
    pub once : Distinct order
    pub ordered : IsOrdered aliases regs [] order

  placed_first :
      (order queue : List TypeId) (curr : TypeId) (degrees : Degrees)
      → Inv aliases regs valid order (curr ∷ queue) degrees
      → DepsIn aliases regs order curr
  placed_first order queue curr degrees inv d c r =
      none_remaining order (dependencies aliases regs curr) d
        (ground
          (arith, inv.zero curr, contains-append order (curr ∷ queue) curr, nat_beq_iff curr curr))
        c r

  shorter :
      (order queue : List TypeId) (degrees : Degrees)
      → Inv aliases regs valid order queue degrees
      → length (order ++ queue) ≤ length regs.keys
  shorter order queue degrees inv =
      length-le_of_subset (order ++ queue) regs.keys inv.once valid.once
        (λ t c. ground (arith, inv.zero t))

  loop :
      (fuel : ℕ) (order queue : List TypeId) (degrees : Degrees)
      → Inv aliases regs valid order queue degrees
      → IsOrdered aliases regs [] order
      → length regs.keys ≤ length order + fuel
      → (final : List TypeId) × (topo_sort_order fuel
            (entries aliases regs valid)
            order
            degrees
            queue
          ≡ some final)
        × Finished final
  unfolding topo_sort_order
  loop fuel order [] degrees inv o f = (
    order,
    refl,
    record {
      zero =
          subst
            (λ l.
              (t : TypeId)
              → contains l t ≡ (contains regs.keys t && (rest_of aliases regs valid order t == 0)))
            (append-nil order) inv.zero;
      once = subst Distinct (append-nil order) inv.once;
      ordered = o;
    },
  )
  loop zero order (curr ∷ queue) degrees inv o f =
      absurd (
        omega (arith, shorter order (curr ∷ queue) degrees inv, length-append order (curr ∷ queue)))
  loop (suc fuel) order (curr ∷ queue) degrees inv o f =
      let next = visit_all curr (entries aliases regs valid) (degrees, queue) in
      loop fuel (order ++ curr ∷ []) next.1 next.0
        (Inv-step aliases regs valid order queue curr degrees inv)
        (IsOrdered-snoc [] order curr o (placed_first order queue curr degrees inv))
        (omega (arith, length-append order (curr ∷ [])))

  pub run :
      (final : List TypeId) × (topo_sort_order
          (len regs)
          (entries aliases regs valid)
          []
          (in_degree aliases regs)
          (first_queue aliases regs valid)
        ≡ some final)
      × Finished final
  unfolding len
  run = loop (length regs.m) [] _ _ start tt (omega (arith, valid.counted))
