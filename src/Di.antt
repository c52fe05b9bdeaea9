-- ===== src/Di.antt =====
-- The dependency-injection container: service_registry.go, di_guard.go and di_errors.go. A
-- reflect.Type is a number, which stands for the identity that Go compares.
pub mod TopoSort
pub mod Container
pub mod Guard
pub mod Resolve
pub mod Tests
use gas.Prelude.{
  ℕ, nat_eq, ◌==◌, Option, none, some, List, Bool, true, false, String, if◌then◌else◌,
}
use gas.OrderedMap.{OrderedMap, get}

abbrev pub TypeId : Type 0
TypeId = ℕ

-- A uint8: the three constants, and the values outside of them.
pub data ServiceLifetime : Type 0 where
  singleton scoped transient : ServiceLifetime
  other : ℕ → ServiceLifetime

unfoldable pub to_string : ServiceLifetime → String
to_string singleton = "singleton"
to_string scoped = "scoped"
to_string transient = "transient"
to_string (other n) = "unknown"

-- The signature of a constructor, as reflection shows it: its parameters and its results.
pub record Ctor : Type 0 where
  pub is_func : Bool
  pub is_variadic : Bool
  pub ins : List TypeId
  pub outs : List TypeId

pub record Registration : Type 0 where
  pub ctor : Ctor
  pub lifetime : ServiceLifetime

-- The sentinels of di_errors.go with the types that the message names; `ctor_error` is an error of
-- the code that the container calls. `waits_for` stands for a wait on another goroutine, whose build
-- the model of one goroutine does not run, and `out_of_fuel` is no error of the program: the model's
-- loops return it when their fuel ends, which the theorems exclude.
pub data DiError : Type 0 where
  not_registered : TypeId → DiError
  circular_dependency : DiError
  captive_dependency : TypeId → TypeId → DiError
  scope_required : TypeId → DiError
  no_constructor : TypeId → DiError
  invalid_lifetime : TypeId → DiError
  invalid_service_shape : TypeId → DiError
  ctor_error : ℕ → DiError
  waits_for : TypeId → DiError
  out_of_fuel : DiError

pub data Result {ℓ} (A : Type ℓ) : Type ℓ where
  ok : A → Result A
  err : DiError → Result A

-- aliasTarget
unfoldable pub alias_target : OrderedMap TypeId TypeId → TypeId → TypeId
alias_target aliases t = elim (get aliases t) [ none ↦ t | some target ↦ target ]
