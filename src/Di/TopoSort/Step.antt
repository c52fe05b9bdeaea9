-- ===== src/Di/TopoSort/Step.antt =====
-- One round of the loop: what visiting the dependencies of every type does to the counts and to
-- the queue.
use gas.Prelude.{
  ℕ, ◌+◌, ◌-◌, ◌≤◌, nat_eq, ◌==◌, ◌≡◌, refl, sym, ◌∙◌, false, ◌&&◌, List, [], ◌∷◌, ◌++◌,
  if◌then◌else◌, arith, contains, Distinct, leb, nat_beq_iff, append_assoc, append-nil,
}
use gas.Maps
use gas.Maps.Laws.{lookup-insert, contains-keys}
use gas.OrderedMap.{get, set}
use gas.Di.{TypeId}
use gas.Di.TopoSort.{Degrees, or_zero, or_empty, visit_deps, visit_all}

abbrev pub degree : Degrees → TypeId → ℕ
degree degrees t = or_zero (get degrees t)

-- How often `curr` is a dependency.
unfoldable pub occurrences : TypeId → List TypeId → ℕ
occurrences curr [] = 0
occurrences curr (dep ∷ d) = (if dep == curr then 1 else 0) + occurrences curr d

pub degree-set :
    (degrees : Degrees) (t u : TypeId) (n : ℕ)
    → degree (set degrees t n) u ≡ (if t == u then n else degree degrees u)
unfolding get set
degree-set degrees t u n = ground (arith, lookup-insert t u n degrees.m)

-- The type whose last dependency has now been placed.
abbrev pub freed : ℕ → ℕ → TypeId → List TypeId
freed deg n t = if leb 1 n && (deg == n) then t ∷ [] else []

visit_deps-queue :
    (curr t : TypeId) (d : List TypeId) (degrees : Degrees) (queue : List TypeId)
    → occurrences curr d ≤ degree degrees t
    → (visit_deps curr t d (degrees, queue)).1
      ≡ queue ++ freed (degree degrees t) (occurrences curr d) t
unfolding visit_deps occurrences
visit_deps-queue curr t [] degrees queue h = sym (append-nil queue)
visit_deps-queue curr t (dep ∷ d) degrees queue h =
    let v = degree degrees t in
    let queue' = if v == 1 then queue ++ t ∷ [] else queue in
    let less = set degrees t (v - 1) in
    ground (
      arith,
      degree-set degrees t t (v - 1),
      visit_deps-queue curr t d less queue',
      visit_deps-queue curr t d degrees queue,
      append-nil queue,
      append-nil (queue ++ t ∷ []),
    )

visit_deps-degree :
    (curr t u : TypeId) (d : List TypeId) (degrees : Degrees) (queue : List TypeId)
    → degree (visit_deps curr t d (degrees, queue)).0 u
      ≡ (if t == u then degree degrees t - occurrences curr d else degree degrees u)
unfolding visit_deps occurrences
visit_deps-degree curr t u [] degrees queue = ground arith
visit_deps-degree curr t u (dep ∷ d) degrees queue = ground (
  arith,
  degree-set degrees t u (degree degrees t - 1),
  degree-set degrees t t (degree degrees t - 1),
  visit_deps-degree curr t u d (set degrees t (degree degrees t - 1))
      (if degree degrees t == 1 then queue ++ t ∷ [] else queue),
  visit_deps-degree curr t u d degrees queue,
)

-- The types that visiting `curr` frees, in the order of the visits.
abbrev pub freed_all : TypeId → Degrees → List (TypeId × List TypeId) → List TypeId
freed_all curr degrees [] = []
freed_all curr degrees ((t, d) ∷ deps) =
    freed (degree degrees t) (occurrences curr d) t ++ freed_all curr degrees deps

-- The counts cover the occurrences of `curr`.
abbrev pub Covers : TypeId → Degrees → List (TypeId × List TypeId) → Type 0
Covers curr degrees [] = Unit
Covers curr degrees ((t, d) ∷ deps) =
    (occurrences curr d ≤ degree degrees t) × Covers curr degrees deps

-- Counts that agree on the types of the list.
abbrev Agree : Degrees → Degrees → List (TypeId × List TypeId) → Type 0
Agree a b [] = Unit
Agree a b ((t, d) ∷ deps) = (degree a t ≡ degree b t) × Agree a b deps

Agree-visit :
    (curr t : TypeId) (d : List TypeId) (degrees : Degrees) (queue : List TypeId)
    (deps : List (TypeId × List TypeId))
    → contains (Maps.keys deps) t ≡ false
    → Agree (visit_deps curr t d (degrees, queue)).0 degrees deps
Agree-visit curr t d degrees queue [] h = tt
Agree-visit curr t d degrees queue ((u, e) ∷ deps) h = (
  ground (arith, visit_deps-degree curr t u d degrees queue),
  Agree-visit curr t d degrees queue deps (ground arith),
)

freed_all-Agree :
    (curr : TypeId) (a b : Degrees) (deps : List (TypeId × List TypeId))
    → Agree a b deps
    → freed_all curr a deps ≡ freed_all curr b deps
freed_all-Agree curr a b [] h = refl
freed_all-Agree curr a b ((t, d) ∷ deps) h = rw (h.0, freed_all-Agree curr a b deps h.1)

Covers-Agree :
    (curr : TypeId) (a b : Degrees) (deps : List (TypeId × List TypeId))
    → Agree a b deps
    → Covers curr b deps
    → Covers curr a deps
Covers-Agree curr a b [] h c = tt
Covers-Agree curr a b ((t, d) ∷ deps) h c = (rw h.0 c.0, Covers-Agree curr a b deps h.1 c.1)

pub visit_all-queue :
    (curr : TypeId) (deps : List (TypeId × List TypeId)) (degrees : Degrees) (queue : List TypeId)
    → Distinct (Maps.keys deps)
    → Covers curr degrees deps
    → (visit_all curr deps (degrees, queue)).1 ≡ queue ++ freed_all curr degrees deps
unfolding visit_all
visit_all-queue curr [] degrees queue h c = sym (append-nil queue)
visit_all-queue curr ((t, d) ∷ deps) degrees queue h c =
    let next = visit_deps curr t d (degrees, queue) in
    let agree = Agree-visit curr t d degrees queue deps h.0 in
    visit_all-queue curr deps next.0 next.1 h.1 (Covers-Agree curr next.0 degrees deps agree c.1)
    ∙ rw
        (
          visit_deps-queue curr t d degrees queue c.0,
          freed_all-Agree curr next.0 degrees deps agree,
        )
        (append_assoc queue _ _)

pub visit_all-degree :
    (curr u : TypeId) (deps : List (TypeId × List TypeId)) (degrees : Degrees) (queue : List TypeId)
    → Distinct (Maps.keys deps)
    → degree (visit_all curr deps (degrees, queue)).0 u
      ≡ degree degrees u - occurrences curr (or_empty (Maps.lookup u deps))
unfolding visit_all occurrences
visit_all-degree curr u [] degrees queue h = omega arith
visit_all-degree curr u ((t, d) ∷ deps) degrees queue h =
    let next = visit_deps curr t d (degrees, queue) in
    ground (
      arith,
      visit_all-degree curr u deps next.0 next.1 h.1,
      visit_deps-degree curr t u d degrees queue,
      contains-keys t deps,
      nat_beq_iff t u,
    )
