-- ===== src/Di/Resolve.antt =====
-- resolveType, resolveSingleton, awaitBuild, invoke, initInstance and resolveCtorArgs of
-- service_registry.go, as one goroutine `gid` runs them. What a constructor returns and whether
-- Init fails are the parameters `call` and `init`, over the rest of the world: they return, without a
-- panic, and do not use the container.
pub mod Enter
pub mod Frame
pub mod Totality
pub mod Caching
pub mod Tests
use gas.Prelude.{
  ℕ, zero, suc, nat_eq, ◌==◌, Bool, true, false, Option, none, some, List, [], ◌∷◌, if◌then◌else◌,
}
use gas.Maps
use gas.OrderedMap.{OrderedMap, get, set, has}
use gas.Di.{
  TypeId, ServiceLifetime, singleton, scoped, transient, other, Registration, DiError, Result, ok,
  err, not_registered, circular_dependency, scope_required, no_constructor, invalid_lifetime,
  ctor_error, waits_for, out_of_fuel, alias_target,
}
use gas.Di.Container.{Value, Reflect, Container, validate_service_shape}
use gas.Di.Guard.{enter_build, leave_build, waits_on}

-- What a constructor returns: a value, or an error.
pub data Called : Type 0 where
  built : Value → Called
  failed : ℕ → Called

pub record State (W : Type 0) : Type 0 where
  pub c : Container
  pub world : W

abbrev pub M : Type 0 → Type 0 → Type 0
M W A = State W → Result A × State W

-- The rest of a function behind `if err != nil { return err }`.
abbrev pub after : {W A B : Type 0} → Result A × State W → (A → M W B) → Result B × State W
after (ok a, s) f = f a s
after (err e, s) f = (err e, s)

module _ {W : Type 0} (r : Reflect) (gid : ℕ) (call : TypeId → List Value → W → Called × W)
    (init : TypeId → Value → W → Option ℕ × W) where
  -- resolveCtorArgs: the error of a parameter is wrapped, and keeps its sentinel.
  unfoldable pub resolve_ctor_args : (TypeId → M W Value) → List TypeId → M W (List Value)
  resolve_ctor_args resolve [] s = (ok [], s)
  resolve_ctor_args resolve (dep ∷ ins) s =
      after (resolve dep s)
        λ v s'. after (resolve_ctor_args resolve ins s') λ args s''. (ok (v ∷ args), s'')

  init_result : Value → Option ℕ → Result Value
  init_result v none = ok v
  init_result v (some e) = err (ctor_error e)

  unfoldable pub init_instance : TypeId → Value → M W Value
  unfolding init_result
  init_instance t v s = elim (validate_service_shape r v.dynamic) [
    | some e ↦ (err e, s)
    | none ↦
        if r.implements v.dynamic r.service_type
        then (let (e, w) = init t v s.world in (init_result v e, record s { world = w }))
        else (ok v, s)
  ]

  -- The constructor's error, or initInstance on its value.
  init_called : TypeId → Called → M W Value
  unfolding init_instance
  init_called t (failed e) s = (err (ctor_error e), s)
  init_called t (built v) s = init_instance t v s

  unfoldable pub construct : (TypeId → M W Value) → TypeId → List TypeId → M W Value
  unfolding init_called resolve_ctor_args
  construct resolve t ins s = after (resolve_ctor_args resolve ins s) λ args s'.
      let (result, w) = call t args s'.world in init_called t result (record s' { world = w })

  -- `defer c.leaveBuild(gid)`
  abbrev pub leaving : {A : Type 0} → Result A × State W → Result A × State W
  leaving (result, s) = (result, record s { c = leave_build gid s.c })

  entered :
      (TypeId → M W Value)
      → TypeId
      → List TypeId
      → Option DiError × Container
      → W
      → Result Value × State W
  unfolding construct
  entered resolve t ins (some e, c) w = (err e, record { c = c; world = w })
  entered resolve t ins (none, c) w =
      leaving (construct resolve t ins (record { c = c; world = w }))

  unfoldable pub invoke : (TypeId → M W Value) → TypeId → M W Value
  unfolding entered
  invoke resolve t s = elim (get s.c.registrations t) [
    | none ↦ (err (no_constructor t), s)
    | some reg ↦ entered resolve t reg.ctor.ins (enter_build gid t s.c) s.world
  ]

  -- The end of resolveSingleton: a built value is cached, and the build is over.
  unfoldable pub finish_build : TypeId → Result Value × State W → Result Value × State W
  finish_build t (ok v, s) = (
    ok v,
    record s {
      c = record s.c { instances = set s.c.instances t v; builds = Maps.delete t s.c.builds };
    },
  )
  finish_build t (err e, s) =
      (err e, record s { c = record s.c { builds = Maps.delete t s.c.builds } })

  -- awaitBuild, for the build that goroutine `b` runs, up to the wait on it: what this goroutine does
  -- behind the wait, with the result of the other, is not in the model.
  unfoldable pub await_build : TypeId → ℕ → M W Value
  await_build t b s =
      if b == gid
      then (err circular_dependency, s)
      else if waits_on s.c b gid
      then (err circular_dependency, s)
      else (err (waits_for t), s)

  unfoldable pub resolve_singleton : (TypeId → M W Value) → TypeId → M W Value
  unfolding invoke finish_build await_build
  resolve_singleton resolve t s = elim (get s.c.instances t) [
    | some v ↦ (ok v, s)
    | none ↦ elim (Maps.lookup t s.c.builds) [
      | some b ↦ await_build t b s
      | none ↦
          finish_build t (
            invoke resolve t
              (record s { c = record s.c { builds = Maps.insert t gid s.c.builds } }))
    ]
  ]

  -- The switch of resolveType on the lifetime.
  by_lifetime : (TypeId → M W Value) → TypeId → ServiceLifetime → M W Value
  unfolding resolve_singleton
  by_lifetime resolve t singleton s = resolve_singleton resolve t s
  by_lifetime resolve t transient s = invoke resolve t s
  by_lifetime resolve t scoped s = (err (scope_required t), s)
  by_lifetime resolve t (other n) s = (err (invalid_lifetime t), s)

  unfoldable pub resolve_target : (TypeId → M W Value) → TypeId → M W Value
  unfolding by_lifetime
  resolve_target resolve t s = elim (get s.c.instances t) [
    | some v ↦ (ok v, s)
    | none ↦ elim (get s.c.registrations t) [
      | none ↦ (err (not_registered t), s)
      | some reg ↦ by_lifetime resolve t reg.lifetime s
    ]
  ]

  -- The fuel bounds how deep the constructors nest, which enterBuild bounds too.
  unfoldable pub resolve_type : ℕ → TypeId → M W Value
  unfolding resolve_target
  resolve_type zero asked s = (err out_of_fuel, s)
  resolve_type (suc fuel) asked s =
      resolve_target (resolve_type fuel) (alias_target s.c.aliases asked) s
