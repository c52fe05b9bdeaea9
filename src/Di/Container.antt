-- ===== src/Di/Container.antt =====
-- The container's state and its registration: RegisterService, RegisterServiceInstance,
-- RegisterServiceAlias and the checks of BuildAll, in service_registry.go. A panic of the program
-- is the error of a registration.
pub mod Aliases
pub mod Checks
pub mod Tests
use gas.Prelude.{
  ℕ, nat_eq, String, ◌==◌, Bool, true, false, not, ◌&&◌, ◌||◌, Option, none, some, List, [], ◌∷◌,
  if◌then◌else◌, length, contains,
}
use gas.Maps
use gas.Maps.{Map}
use gas.OrderedMap.{OrderedMap, get, has, set, all, empty}
use gas.Di.{
  TypeId, ServiceLifetime, singleton, scoped, transient, other, Ctor, Registration, DiError, Result,
  ok, err, not_registered, invalid_service_shape, captive_dependency, alias_target,
}
use gas.Di.TopoSort.{zero_registration}

-- A reflect.Value: the identity of what is held, and its dynamic type.
pub record Value : Type 0 where
  pub identity : ℕ
  pub dynamic : TypeId

-- What the code asks of Go's reflection about the types of the program.
pub record Reflect : Type 0 where
  pub is_interface : TypeId → Bool
  pub is_pointer : TypeId → Bool
  pub pointer_to : TypeId → TypeId
  pub declares : TypeId → String → Bool
  pub implements : TypeId → TypeId → Bool
  pub assignable_to : TypeId → TypeId → Bool
  pub error_type : TypeId
  pub service_type : TypeId

-- The goroutine of a build, and what each goroutine constructs and waits for.
pub record Container : Type 0 where
  pub registrations : OrderedMap TypeId Registration
  pub instances : OrderedMap TypeId Value
  pub aliases : OrderedMap TypeId TypeId
  pub inited_instances : List TypeId
  pub builds : Map TypeId ℕ
  pub stacks : Map ℕ (List TypeId)
  pub waiting : Map ℕ ℕ

abbrev pub new_service_container : Container
new_service_container = record {
  registrations = empty;
  instances = empty;
  aliases = empty;
  inited_instances = [];
  builds = [];
  stacks = [];
  waiting = [];
}

-- validateServiceShape: a type that declares Init or Close must be a Service.
unfoldable pub validate_service_shape : Reflect → TypeId → Option DiError
validate_service_shape r t =
    if r.implements t r.service_type
    then none
    else if not (r.is_pointer t)
        && not (r.is_interface t)
        && r.implements (r.pointer_to t) r.service_type
    then some (invalid_service_shape t)
    else if not (r.declares t "Init") && not (r.declares t "Close")
    then none
    else some (invalid_service_shape t)

-- The messages of the panics in registration.
pub data Panic : Type 0 where
  not_a_function variadic bad_result_count not_assignable second_not_error : Panic
  transient_service registered_as_alias : Panic
  alias_not_interface alias_is_target target_does_not_implement : Panic
  alias_is_registered target_is_alias alias_is_a_target : Panic

pub data Registered (A : Type 0) : Type 0 where
  done : A → Registered A
  panic : Panic → Registered A

abbrev first_out : List TypeId → TypeId
first_out [] = 0
first_out (t ∷ ts) = t

-- isValidCtorErrorReturnType
abbrev pub error_result_is_valid : Reflect → List TypeId → Bool
error_result_is_valid r (out ∷ e ∷ []) = r.implements e r.error_type
error_result_is_valid r _ = true

module _ (r : Reflect) where
  unfoldable pub validate_ctor_shape : TypeId → Ctor → Option Panic
  validate_ctor_shape t ct =
      if not ct.is_func
      then some not_a_function
      else if ct.is_variadic
      then some variadic
      else if not (length ct.outs == 1 || length ct.outs == 2)
      then some bad_result_count
      else if not (
          r.assignable_to (first_out ct.outs) t
          || r.is_interface t && r.implements (first_out ct.outs) t)
      then some not_assignable
      else if not (error_result_is_valid r ct.outs)
      then some second_not_error
      else none

abbrev pub is_transient : ServiceLifetime → Bool
is_transient transient = true
is_transient _ = false

-- The part of RegisterService under the lock.
unfoldable pub add_registration : Container → TypeId → Registration → Registered Container
add_registration c t reg =
    if has c.aliases t
    then panic registered_as_alias
    else done (record c { registrations = set c.registrations t reg })

abbrev pub panic_or : Option Panic → Registered Container → Registered Container
panic_or (some p) rest = panic p
panic_or none rest = rest

module _ (r : Reflect) where
  -- `t.Kind() == reflect.Pointer && t.Implements(svcType)` is one case of `t.Implements(svcType)`.
  unfoldable pub register_service :
      Container → TypeId → Ctor → ServiceLifetime → Registered Container
  unfolding validate_ctor_shape add_registration
  register_service c t ct lifetime = panic_or (validate_ctor_shape r t ct) (
      if is_transient lifetime && r.implements t r.service_type
      then panic transient_service
      else add_registration c t (record { ctor = ct; lifetime = lifetime }))

-- setInstance and its caller RegisterServiceInstance
unfoldable pub register_service_instance : Container → TypeId → Value → Registered Container
register_service_instance c t v =
    if has c.aliases t
    then panic registered_as_alias
    else done (record c { instances = set c.instances t v })

unfoldable pub validate_alias : Reflect → TypeId → TypeId → Option Panic
validate_alias r t a =
    if not (r.is_interface a)
    then some alias_not_interface
    else if t == a
    then some alias_is_target
    else if not (r.implements t a)
    then some target_does_not_implement
    else none

-- The loop over the aliases in checkAliasLocked.
unfoldable pub is_a_target : TypeId → List (TypeId × TypeId) → Bool
is_a_target a [] = false
is_a_target a ((alias, target) ∷ rest) = if target == a then true else is_a_target a rest

unfoldable pub check_alias_locked : Container → TypeId → TypeId → Option Panic
unfolding is_a_target
check_alias_locked c t a =
    if has c.registrations a || has c.instances a
    then some alias_is_registered
    else if has c.aliases t
    then some target_is_alias
    else if is_a_target a (all 0 c.aliases)
    then some alias_is_a_target
    else none

unfoldable pub register_service_alias : Reflect → Container → TypeId → TypeId → Registered Container
unfolding validate_alias check_alias_locked
register_service_alias r c t a =
    panic_or (validate_alias r t a)
      (panic_or (check_alias_locked c t a) (done (record c { aliases = set c.aliases a t })))

-- validateAliases
unfoldable pub validate_aliases : Container → List (TypeId × TypeId) → Option DiError
validate_aliases c [] = none
validate_aliases c ((a, t) ∷ rest) =
    if not (has c.registrations t) && not (has c.instances t)
    then some (not_registered t)
    else validate_aliases c rest

-- A singleton must not hold a scoped or a transient service.
abbrev pub is_captive : ServiceLifetime → Option Registration → Bool
is_captive singleton (some dep) = elim dep.lifetime [ scoped ↦ true | transient ↦ true | _ ↦ false ]
is_captive _ _ = false

-- The inner loop of validateLifetimes, over the parameters of one constructor.
unfoldable pub captive_in : Container → TypeId → ServiceLifetime → List TypeId → Option DiError
captive_in c t lifetime [] = none
captive_in c t lifetime (dep ∷ deps) =
    let target = alias_target c.aliases dep in
    let rest = captive_in c t lifetime deps in
    if has c.instances target
    then rest
    else if is_captive lifetime (get c.registrations target)
    then some (captive_dependency t target)
    else rest

abbrev pub or_else : Option DiError → Option DiError → Option DiError
or_else (some e) rest = some e
or_else none rest = rest

unfoldable pub captive_among : Container → List (TypeId × Registration) → Option DiError
unfolding captive_in
captive_among c [] = none
captive_among c ((t, reg) ∷ regs) =
    or_else (captive_in c t reg.lifetime reg.ctor.ins) (captive_among c regs)

unfoldable pub validate_lifetimes : Container → Option DiError
unfolding captive_among
validate_lifetimes c = captive_among c (all zero_registration c.registrations)
