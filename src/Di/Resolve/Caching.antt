-- ===== src/Di/Resolve/Caching.antt =====
-- A singleton is built once: a build that succeeds is cached and answers every later resolution,
-- and one that fails is not.
use gas.Prelude.{
  ℕ, suc, nat_eq, ◌≡◌, ◌∙◌, subst, Option, none, some, List, arith, nat_beq_iff, Option-cases, inl,
  inr,
}
use gas.Maps
use gas.Maps.Laws.{lookup-insert}
use gas.OrderedMap.{get}
use gas.OrderedMap.Reads.{get-set}
use gas.Di.{TypeId, singleton, Registration, DiError, Result, ok, err, alias_target}
use gas.Di.Container.{Value, Reflect}
use gas.Di.Resolve.{
  Called, State, M, invoke, finish_build, await_build, resolve_singleton, resolve_target,
  resolve_type, by_lifetime,
}
use gas.Di.Resolve.Frame.{AllKeep, invoke-Keeps, resolve_type-Frame}

module _ {W : Type 0} (r : Reflect) (gid : ℕ) (call : TypeId → List Value → W → Called × W)
    (init : TypeId → Value → W → Option ℕ × W) where
  -- The result and the cache agree: a value is cached, and after an error nothing is.
  abbrev Cached : TypeId → Result Value × State W → Type 0
  Cached t (ok v, s) = get s.c.instances t ≡ some v
  Cached t (err e, s) = get s.c.instances t ≡ none

  finish_build-Cached :
      (t : TypeId) (x : Result Value × State W)
      → get x.1.c.instances t ≡ none
      → Cached t (finish_build r gid call init t x)
  unfolding finish_build
  finish_build-Cached t (ok v, s) h = ground (arith, get-set s.c.instances t t v, nat_beq_iff t t)
  finish_build-Cached t (err e, s) h = h

  await_build-Cached :
      (t : TypeId) (b : ℕ) (s : State W)
      → get s.c.instances t ≡ none
      → Cached t (await_build r gid call init t b s)
  unfolding await_build
  await_build-Cached t b s h = ground arith

  module _ (resolve : TypeId → M W Value) (t : TypeId) (s : State W)
      (keeps : AllKeep r gid call init resolve) where
    resolve_singleton-Cached : Cached t (resolve_singleton r gid call init resolve t s)
    unfolding resolve_singleton
    resolve_singleton-Cached = elim (Option-cases (get s.c.instances t)) [
      | inr (v, there) ↦ rw (there, resolve_singleton) there
      | inl fresh ↦ elim (Option-cases (Maps.lookup t s.c.builds)) [
        | inr (b, busy) ↦ rw (fresh, busy, resolve_singleton) (await_build-Cached t b s fresh)
        | inl idle ↦
            let start : State W = record s {
              c = record s.c { builds = Maps.insert t gid s.c.builds };
            } in
            rw (fresh, idle, resolve_singleton)
              (finish_build-Cached t (invoke r gid call init resolve t start) (
                (invoke-Keeps r gid call init resolve t keeps start).guarded t
                  (ground (arith, lookup-insert t t gid s.c.builds, nat_beq_iff t t))
                ∙ fresh))
      ]
    ]

    resolve_target-Cached :
        (reg : Registration)
        → get s.c.registrations t ≡ some reg
        → reg.lifetime ≡ singleton
        → Cached t (resolve_target r gid call init resolve t s)
    unfolding resolve_target by_lifetime
    resolve_target-Cached reg found single = elim (Option-cases (get s.c.instances t)) [
      | inr (v, there) ↦ rw (there, resolve_target) there
      | inl fresh ↦ rw (fresh, found, resolve_target, single, by_lifetime) resolve_singleton-Cached
    ]

  answered :
      (asked : TypeId) (v : Value) (s : State W) (again : ℕ)
      → get s.c.instances (alias_target s.c.aliases asked) ≡ some v
      → resolve_type r gid call init (suc again) asked s ≡ (ok v, s)
  unfolding resolve_type resolve_target
  answered asked v s again cached = rw (cached, resolve_type, resolve_target)

  module _ (fuel : ℕ) (asked : TypeId) (s : State W) (reg : Registration)
      (found : get s.c.registrations (alias_target s.c.aliases asked) ≡ some reg)
      (single : reg.lifetime ≡ singleton) where
    agree :
        Cached (alias_target s.c.aliases asked) (resolve_type r gid call init (suc fuel) asked s)
    unfolding resolve_type
    agree =
        resolve_target-Cached (resolve_type r gid call init fuel) _ s
          (resolve_type-Frame r gid call init fuel) reg found single

    -- A singleton that was resolved is cached, and resolving it again gives the same value, runs
    -- nothing and changes nothing.
    pub resolve_type-again :
        (v : Value) (s' : State W) (again : ℕ)
        → resolve_type r gid call init (suc fuel) asked s ≡ (ok v, s')
        → (get s'.c.instances (alias_target s.c.aliases asked) ≡ some v)
          × (resolve_type r gid call init (suc again) asked s' ≡ (ok v, s'))
    resolve_type-again v s' again e =
        let cached = subst (Cached (alias_target s.c.aliases asked)) e agree in
        let kept = resolve_type-Frame r gid call init (suc fuel) asked s in
        (
          cached,
          answered asked v s' again (
              rw
                (subst (λ (x : Result Value × State W). x.1.c.aliases ≡ s.c.aliases) e kept.aliases)
                cached),
        )

    -- A singleton whose resolution failed, by its constructor, its Init, a dependency or a cycle,
    -- is not cached.
    pub resolve_type-failed :
        (e : DiError) (s' : State W)
        → resolve_type r gid call init (suc fuel) asked s ≡ (err e, s')
        → get s'.c.instances (alias_target s.c.aliases asked) ≡ none
    resolve_type-failed e s' h = subst (Cached (alias_target s.c.aliases asked)) h agree
