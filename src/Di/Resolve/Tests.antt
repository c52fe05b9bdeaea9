-- ===== src/Di/Resolve/Tests.antt =====
-- Runs of the resolution, and the theorems at concrete containers.
use gas.Prelude.{
  ℕ, nat_eq, ◌==◌, ◌≡◌, ◌≢◌, refl, true, false, Option, none, some, List, [], ◌∷◌, arith,
}
use gas.OrderedMap.{get, set, has}
use gas.Di.{
  TypeId, Registration, singleton, ok, err, circular_dependency, out_of_fuel, waits_for,
  alias_target,
}
use gas.Di.Container.{Value, Reflect, Container, new_service_container, validate_service_shape}
use gas.Di.Guard.{enter_build, leave_build, waits_on}
use gas.Di.Resolve.{Called, built, State, resolve_type}
use gas.Di.Resolve.Frame.{Frame, resolve_type-Frame}
use gas.Di.Resolve.Totality.{Alone, resolve_type-total}
use gas.Di.Resolve.Caching.{resolve_type-again, resolve_type-failed}

-- No interfaces; type 1 is a Service.
abbrev reflect : Reflect
reflect = record {
  is_interface = λ t. false;
  is_pointer = λ t. true;
  pointer_to = λ t. t;
  declares = λ t name. t == 1;
  implements = λ t i. t == 1;
  assignable_to = λ t u. t == u;
  error_type = 101;
  service_type = 100;
}

-- Every constructor returns a value of its type and is written to the world's log, and so is Init.
abbrev call : TypeId → List Value → List ℕ → Called × List ℕ
call t args log = (built (record { identity = t; dynamic = t }), t ∷ log)

abbrev init : TypeId → Value → List ℕ → Option ℕ × List ℕ
init t v log = (none, 1000 ∷ log)

abbrev reg : List TypeId → Registration
reg ins = record {
  ctor = record { is_func = true; is_variadic = false; ins = ins; outs = [] };
  lifetime = singleton;
}

-- 3 wants the alias 9 of 1, and 1 wants 2 twice.
abbrev container : Container
container = record new_service_container {
  registrations = record {
    m = (3, reg (9 ∷ [])) ∷ (1, reg (2 ∷ 2 ∷ [])) ∷ (2, reg []) ∷ [];
    keys = 3 ∷ 1 ∷ 2 ∷ [];
  };
  aliases = record { m = (9, 1) ∷ []; keys = 9 ∷ [] };
}

-- 1 and 2 want each other.
abbrev cyclic : Container
cyclic = record new_service_container {
  registrations = record { m = (1, reg (2 ∷ [])) ∷ (2, reg (1 ∷ [])) ∷ []; keys = 1 ∷ 2 ∷ [] };
}

abbrev start : Container → State (List ℕ)
start c = record { c = c; world = [] }

abbrev value : TypeId → Value
value t = record { identity = t; dynamic = t }

each_built_once :
    (resolve_type reflect 7 call init 257 3 (start container)).1.world ≡ 3 ∷ 1000 ∷ 1 ∷ 2 ∷ []
unfolding resolve_type get set has alias_target enter_build leave_build validate_service_shape
each_built_once = refl

resolved :
    resolve_type reflect 7 call init 257 3 (start container)
    ≡ (ok (value 3), (resolve_type reflect 7 call init 257 3 (start container)).1)
unfolding resolve_type get set has alias_target enter_build leave_build validate_service_shape
resolved = refl

cycle :
    resolve_type reflect 7 call init 257 1 (start cyclic)
    ≡ (err circular_dependency, (resolve_type reflect 7 call init 257 1 (start cyclic)).1)
unfolding resolve_type get set has alias_target enter_build leave_build validate_service_shape
    waits_on
cycle = refl

resolve_type-Frame_example :
    Frame 7 container (resolve_type reflect 7 call init 257 3 (start container)).1.c
resolve_type-Frame_example = resolve_type-Frame reflect 7 call init 257 3 (start container)

resolve_type-total_example :
    ((resolve_type reflect 7 call init 257 1 (start cyclic)).0 ≢ err out_of_fuel)
    × (Alone reflect 7 call init cyclic
        → (u : TypeId)
        → (resolve_type reflect 7 call init 257 1 (start cyclic)).0 ≢ err (waits_for u))
resolve_type-total_example =
    resolve_type-total reflect 7 call init 257 1 (start cyclic) (omega arith) (omega arith)

resolve_type-again_example :
    (get
        (resolve_type reflect 7 call init 257 3 (start container)).1.c.instances
        (alias_target container.aliases 3)
      ≡ some (value 3))
    × (resolve_type reflect 7 call init 257 3
          (resolve_type reflect 7 call init 257 3 (start container)).1
        ≡ (ok (value 3), (resolve_type reflect 7 call init 257 3 (start container)).1))
unfolding get alias_target
resolve_type-again_example =
    resolve_type-again reflect 7 call init 256 3 (start container) (reg (9 ∷ [])) refl refl
      (value 3) _ 256 resolved

resolve_type-failed_example :
    get
      (resolve_type reflect 7 call init 257 1 (start cyclic)).1.c.instances
      (alias_target cyclic.aliases 1)
    ≡ none
unfolding get alias_target
resolve_type-failed_example =
    resolve_type-failed reflect 7 call init 256 1 (start cyclic) (reg (2 ∷ [])) refl refl
      circular_dependency _ cycle
