-- ===== src/Di/TopoSort/Counts.antt =====
-- What topoSort computes before its loop: the counts and the first queue.
use gas.Prelude.{
  ℕ, ◌+◌, nat_eq, ◌==◌, ◌≡◌, refl, ◌∙◌, Bool, true, false, ◌&&◌, ◌||◌, not, List, [], ◌∷◌,
  if◌then◌else◌, arith, contains, Distinct, nat_beq_iff,
}
use gas.Maps
use gas.Maps.{Map}
use gas.Maps.Laws.{lookup-insert}
use gas.OrderedMap.{OrderedMap, get, set, has, all, entries_of, empty}
use gas.OrderedMap.Refinement.{IsValid, empty-IsValid, set-IsValid}
use gas.OrderedMap.Reads.{has-set}
use gas.Di.{TypeId, Registration}
use gas.Di.TopoSort.{
  Deps, Degrees, or_zero, count_deps, count_all, zero_degrees, deps_of, in_degree,
}
use gas.Di.TopoSort.Start.{deps_at, dependencies, deps_at-deps_of}
use gas.Di.TopoSort.Step.{degree, degree-set}

start_degree :
    (degrees : Degrees) (t u : TypeId)
    → degree (if has degrees t then degrees else set degrees t 0) u ≡ degree degrees u
unfolding has get set
start_degree degrees t u = ground (arith, lookup-insert t u 0 degrees.m, nat_beq_iff t u)

start_has :
    (degrees : Degrees) (t u : TypeId)
    → has (if has degrees t then degrees else set degrees t 0) u ≡ (t == u || has degrees u)
start_has degrees t u = ground (arith, has-set degrees t u 0, nat_beq_iff t u)

module _ (regs : OrderedMap TypeId Registration) where
  -- The dependencies with a constructor that are not in `placed`.
  abbrev pub remaining : List TypeId → List TypeId → ℕ
  remaining placed [] = 0
  remaining placed (d ∷ ds) =
      (if has regs d && not (contains placed d) then 1 else 0) + remaining placed ds

  count_deps-IsValid :
      (t : TypeId) (ds : List TypeId) (degrees : Degrees)
      → IsValid degrees
      → IsValid (count_deps regs t ds degrees)
  unfolding count_deps
  count_deps-IsValid t [] degrees h = h
  count_deps-IsValid t (d ∷ ds) degrees h = ground (
    arith,
    count_deps-IsValid t ds degrees h,
    count_deps-IsValid t ds (set degrees t (or_zero (get degrees t) + 1))
        (set-IsValid degrees t _ h),
  )

  count_all-IsValid :
      (deps : Deps) (ts : List TypeId) (degrees : Degrees)
      → IsValid degrees
      → IsValid (count_all regs deps ts degrees)
  unfolding count_all
  count_all-IsValid deps [] degrees h = h
  count_all-IsValid deps (t ∷ ts) degrees h =
      count_all-IsValid deps ts _ (count_deps-IsValid t _ _ (start (has degrees t)))
    where
      start : (b : Bool) → IsValid (if b then degrees else set degrees t 0)
      start true = h
      start false = set-IsValid degrees t 0 h

  degree-count_deps :
      (t u : TypeId) (ds : List TypeId) (degrees : Degrees)
      → degree (count_deps regs t ds degrees) u
        ≡ (if t == u then degree degrees t + remaining [] ds else degree degrees u)
  unfolding count_deps
  degree-count_deps t u [] degrees = ground (arith, nat_beq_iff t u)
  degree-count_deps t u (d ∷ ds) degrees =
      let more = set degrees t (degree degrees t + 1) in
      ground (
        arith,
        degree-count_deps t u ds degrees,
        degree-count_deps t u ds more,
        degree-set degrees t u (degree degrees t + 1),
        degree-set degrees t t (degree degrees t + 1),
      )

  has-count_deps :
      (t u : TypeId) (ds : List TypeId) (degrees : Degrees)
      → has degrees t ≡ true
      → has (count_deps regs t ds degrees) u ≡ has degrees u
  unfolding count_deps
  has-count_deps t u [] degrees h = refl
  has-count_deps t u (d ∷ ds) degrees h =
      let v = degree degrees t + 1 in
      ground (
        arith,
        has-count_deps t u ds degrees,
        has-count_deps t u ds (set degrees t v),
        has-set degrees t u v,
        has-set degrees t t v,
        nat_beq_iff t u,
      )

  degree-count_all :
      (deps : Deps) (u : TypeId) (ts : List TypeId) (degrees : Degrees)
      → Distinct ts
      → degree (count_all regs deps ts degrees) u
        ≡ degree degrees u + (if contains ts u then remaining [] (deps_at deps u) else 0)
  unfolding count_all
  degree-count_all deps u [] degrees d = omega arith
  degree-count_all deps u (t ∷ ts) degrees d =
      let start = if has degrees t then degrees else set degrees t 0 in
      let next = count_deps regs t (deps_at deps t) start in
      ground (
        arith,
        degree-count_all deps u ts next d.1,
        degree-count_deps t u (deps_at deps t) start,
        start_degree degrees t u,
        start_degree degrees t t,
        nat_beq_iff t u,
        d.0,
      )

  has-count_all :
      (deps : Deps) (u : TypeId) (ts : List TypeId) (degrees : Degrees)
      → has (count_all regs deps ts degrees) u ≡ (has degrees u || contains ts u)
  unfolding count_all
  has-count_all deps u [] degrees = ground arith
  has-count_all deps u (t ∷ ts) degrees =
      let start = if has degrees t then degrees else set degrees t 0 in
      let next = count_deps regs t (deps_at deps t) start in
      ground (
        arith,
        has-count_all deps u ts next,
        start_has degrees t u,
        start_has degrees t t,
        has-count_deps t u (deps_at deps t) start,
        nat_beq_iff t u,
        nat_beq_iff t t,
      )

-- The queue holds the keys whose count is 0, once each.
contains-zero_degrees :
    (M : Map TypeId ℕ) (ks : List TypeId) (t : TypeId)
    → contains (zero_degrees (entries_of 0 M ks)) t
      ≡ (contains ks t && (or_zero (Maps.lookup t M) == 0))
unfolding zero_degrees
contains-zero_degrees M [] t = refl
contains-zero_degrees M (k ∷ ks) t = ground (arith, contains-zero_degrees M ks t, nat_beq_iff k t)

Distinct-zero_degrees :
    (M : Map TypeId ℕ) (ks : List TypeId)
    → Distinct ks
    → Distinct (zero_degrees (entries_of 0 M ks))
unfolding zero_degrees
Distinct-zero_degrees M [] d = tt
Distinct-zero_degrees M (k ∷ ks) d =
    ground (arith, Distinct-zero_degrees M ks d.1, contains-zero_degrees M ks k)

module _ (aliases : OrderedMap TypeId TypeId) (regs : OrderedMap TypeId Registration)
    (valid : IsValid regs) where
  in_degree-IsValid : IsValid (in_degree aliases regs)
  unfolding in_degree
  in_degree-IsValid = count_all-IsValid regs (deps_of aliases regs) regs.keys empty empty-IsValid

  -- What is not registered has no dependencies.
  pub outside : (t : TypeId) → contains regs.keys t ≡ false → dependencies aliases regs t ≡ []
  unfolding get
  outside t h = ground (arith, valid.same t)

  -- The first count of a type is the number of its dependencies with a constructor.
  pub degree-in_degree :
      (t : TypeId)
      → degree (in_degree aliases regs) t ≡ remaining regs [] (dependencies aliases regs t)
  unfolding in_degree get
  degree-in_degree t =
      degree-count_all regs (deps_of aliases regs) t regs.keys empty valid.once
      ∙ rw (deps_at-deps_of aliases regs valid t) (ground (arith, outside t))

  contains-in_degree :
      (t : TypeId) → contains (in_degree aliases regs).keys t ≡ contains regs.keys t
  unfolding in_degree has
  contains-in_degree t =
      in_degree-IsValid.same t ∙ has-count_all regs (deps_of aliases regs) t regs.keys empty

  abbrev pub first_queue : List TypeId
  first_queue = zero_degrees (all 0 (in_degree aliases regs))

  pub contains-first_queue :
      (t : TypeId)
      → contains first_queue t ≡ (contains regs.keys t && (degree (in_degree aliases regs) t == 0))
  unfolding all get
  contains-first_queue t =
      contains-zero_degrees (in_degree aliases regs).m (in_degree aliases regs).keys t
      ∙ rw (contains-in_degree t)

  pub Distinct-first_queue : Distinct first_queue
  unfolding all
  Distinct-first_queue =
      Distinct-zero_degrees (in_degree aliases regs).m (in_degree aliases regs).keys
        in_degree-IsValid.once
