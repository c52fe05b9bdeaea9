-- ===== src/Di/TopoSort/Kahn.antt =====
-- The invariant of the loop of topoSortOrder.
use gas.Prelude.{
  ℕ, ◌+◌, ◌≤◌, nat_eq, ◌==◌, ◌≡◌, refl, ◌∙◌, true, false, ◌&&◌, List, [], ◌∷◌, ◌++◌, arith,
  contains, contains-append, Distinct, Distinct-append, Distinct-middle, leb, nat_beq_iff,
  append_assoc,
}
use gas.Maps
use gas.Maps.Laws.{contains-keys}
use gas.OrderedMap.{OrderedMap, has, all}
use gas.OrderedMap.Refinement.{IsValid}
use gas.OrderedMap.Reads.{Distinct-all}
use gas.Di.{TypeId, Registration}
use gas.Di.TopoSort.{Degrees, or_empty, deps_of, visit_all}
use gas.Di.TopoSort.Start.{dependencies, deps_of-IsValid, lookup-deps_of}
use gas.Di.TopoSort.Counts.{remaining, outside}
use gas.Di.TopoSort.Step.{
  degree, occurrences, freed, freed_all, Covers, visit_all-queue, visit_all-degree,
}

-- Counts that cover the occurrences at each type cover them at each entry.
Covers-lookup :
    (curr : TypeId) (degrees : Degrees) (deps : List (TypeId × List TypeId))
    → Distinct (Maps.keys deps)
    → ((u : TypeId) → occurrences curr (or_empty (Maps.lookup u deps)) ≤ degree degrees u)
    → Covers curr degrees deps
unfolding occurrences
Covers-lookup curr degrees [] d h = tt
Covers-lookup curr degrees ((t, e) ∷ deps) d h = (
  ground (arith, h t, nat_beq_iff t t),
  Covers-lookup curr degrees deps d.1
      (λ u. ground (arith, h u, nat_beq_iff t u, contains-keys t deps, d.0)),
)

contains-freed_all :
    (curr t : TypeId) (degrees : Degrees) (deps : List (TypeId × List TypeId))
    → Distinct (Maps.keys deps)
    → contains (freed_all curr degrees deps) t ≡ (
        leb 1 (occurrences curr (or_empty (Maps.lookup t deps)))
        && (degree degrees t == occurrences curr (or_empty (Maps.lookup t deps))))
unfolding occurrences
contains-freed_all curr t degrees [] d = refl
contains-freed_all curr t degrees ((u, e) ∷ deps) d =
    let n = occurrences curr e in
    ground (
      arith,
      contains-append (freed (degree degrees u) n u) (freed_all curr degrees deps) t,
      contains-freed_all curr t degrees deps d.1,
      nat_beq_iff u t,
      contains-keys u deps,
      d.0,
    )

Distinct-freed_all :
    (curr : TypeId) (degrees : Degrees) (deps : List (TypeId × List TypeId))
    → Distinct (Maps.keys deps)
    → Distinct (freed_all curr degrees deps)
unfolding occurrences
Distinct-freed_all curr degrees [] d = tt
Distinct-freed_all curr degrees ((u, e) ∷ deps) d = ground (
  arith,
  contains-freed_all curr u degrees deps d.1,
  contains-keys u deps,
  d.0,
  Distinct-freed_all curr degrees deps d.1,
)

-- Placing `curr` lowers what remains by the occurrences of `curr`.
remaining-snoc :
    (regs : OrderedMap TypeId Registration) (order ds : List TypeId) (curr : TypeId)
    → has regs curr ≡ true
    → contains order curr ≡ false
    → remaining regs (order ++ curr ∷ []) ds + occurrences curr ds ≡ remaining regs order ds
unfolding occurrences
remaining-snoc regs order [] curr h c = omega arith
remaining-snoc regs order (d ∷ ds) curr h c = ground (
  arith,
  remaining-snoc regs order ds curr h c,
  contains-append order (curr ∷ []) d,
  nat_beq_iff d curr,
  nat_beq_iff curr d,
)

module _ (aliases : OrderedMap TypeId TypeId) (regs : OrderedMap TypeId Registration)
    (valid : IsValid regs) where
  abbrev pub entries : List (TypeId × List TypeId)
  entries = all [] (deps_of aliases regs)

  abbrev pub rest_of : List TypeId → TypeId → ℕ
  rest_of order t = remaining regs order (dependencies aliases regs t)

  -- Each count is the number of dependencies still to be placed, and the placed and queued types
  -- are the registered ones with none left, once each.
  pub record Inv (order queue : List TypeId) (degrees : Degrees) : Type 0 where
    pub counts : (t : TypeId) → degree degrees t ≡ rest_of order t
    pub zero :
        (t : TypeId)
        → contains (order ++ queue) t ≡ (contains regs.keys t && (rest_of order t == 0))
    pub once : Distinct (order ++ queue)

  entries-Distinct : Distinct (Maps.keys entries)
  entries-Distinct = Distinct-all [] (deps_of aliases regs) (deps_of-IsValid aliases regs valid)

  rest_outside :
      (t : TypeId) (order : List TypeId) → contains regs.keys t ≡ false → rest_of order t ≡ 0
  rest_outside t order h = rw (outside aliases regs valid t h)

  module _ (order queue : List TypeId) (curr : TypeId) (degrees : Degrees)
      (inv : Inv order (curr ∷ queue) degrees) where
    fresh : contains order curr ≡ false
    fresh = Distinct-middle order queue curr inv.once

    registered : has regs curr ≡ true
    unfolding has
    registered = ground (
      arith,
      inv.zero curr,
      contains-append order (curr ∷ queue) curr,
      nat_beq_iff curr curr,
      valid.same curr,
    )

    lowered :
        (t : TypeId)
        → rest_of (order ++ curr ∷ []) t + occurrences curr (dependencies aliases regs t)
          ≡ rest_of order t
    lowered t = remaining-snoc regs order (dependencies aliases regs t) curr registered fresh

    covers : Covers curr degrees entries
    covers =
        Covers-lookup curr degrees entries entries-Distinct
          (λ u. rw (lookup-deps_of aliases regs valid u) (omega (arith, lowered u, inv.counts u)))

    freed_here : List TypeId
    freed_here = freed_all curr degrees entries

    contains-freed_here :
        (t : TypeId)
        → contains freed_here t ≡ (
            leb 1 (occurrences curr (dependencies aliases regs t))
            && (rest_of order t == occurrences curr (dependencies aliases regs t)))
    unfolding freed_here
    contains-freed_here t =
        contains-freed_all curr t degrees entries entries-Distinct
        ∙ rw (lookup-deps_of aliases regs valid t, inv.counts t)

    next_list :
        (order ++ curr ∷ []) ++ (visit_all curr entries (degrees, queue)).1
        ≡ (order ++ curr ∷ queue) ++ freed_here
    unfolding freed_here
    next_list = rw (visit_all-queue curr entries degrees queue entries-Distinct covers) (
        cc (
          append_assoc order (curr ∷ []) (queue ++ freed_all curr degrees entries),
          append_assoc order (curr ∷ queue) (freed_all curr degrees entries),
        ))

    step_zero :
        (t : TypeId)
        → contains ((order ++ curr ∷ queue) ++ freed_here) t
          ≡ (contains regs.keys t && (rest_of (order ++ curr ∷ []) t == 0))
    step_zero t = ground (
      arith,
      contains-append (order ++ curr ∷ queue) freed_here t,
      inv.zero t,
      contains-freed_here t,
      lowered t,
      rest_outside t order,
    )

    Distinct-next : Distinct ((order ++ curr ∷ queue) ++ freed_here)
    Distinct-next =
        Distinct-append (order ++ curr ∷ queue) freed_here inv.once
          (unfold freed_here in Distinct-freed_all curr degrees entries entries-Distinct)
          (λ t c. ground (arith, contains-freed_here t, inv.zero t))

    pub Inv-step :
        Inv
          (order ++ curr ∷ [])
          (visit_all curr entries (degrees, queue)).1
          (visit_all curr entries (degrees, queue)).0
    Inv-step = record {
      counts = λ t.
          let visited = visit_all-degree curr t entries degrees queue entries-Distinct in
          visited
          ∙ rw (lookup-deps_of aliases regs valid t) (omega (arith, lowered t, inv.counts t));
      zero = λ t. rw next_list (step_zero t);
      once = rw next_list Distinct-next;
    }
