-- ===== src/Di/Container/Tests.antt =====
-- Runs of the registration, and the theorems at a concrete container.
use gas.Prelude.{nat_eq, ◌==◌, ◌≡◌, ◌↔◌, refl, true, false, none, some, List, [], ◌∷◌}
use gas.OrderedMap.{get, set, has, all}
use gas.Di.{TypeId, singleton, transient, Ctor, alias_target, captive_dependency}
use gas.Di.TopoSort.{zero_registration}
use gas.Di.Container.{
  Reflect, Container, new_service_container, done, panic, registered_as_alias, register_service,
  register_service_alias, validate_lifetimes,
}
use gas.Di.Container.Aliases.{AliasesAreFlat, Reachable, Reachable-AliasesAreFlat}
use gas.Di.Container.Checks.{NoCaptives, validate_lifetimes_iff}

-- 9 is an interface that every type implements.
abbrev reflect : Reflect
reflect = record {
  is_interface = λ t. t == 9;
  is_pointer = λ t. true;
  pointer_to = λ t. t;
  declares = λ t name. false;
  implements = λ t i. i == 9;
  assignable_to = λ t u. t == u;
  error_type = 101;
  service_type = 100;
}

abbrev ctor : TypeId → List TypeId → Ctor
ctor t ins = record { is_func = true; is_variadic = false; ins = ins; outs = t ∷ [] }

-- 1 is a transient service, 9 its alias, and the singleton 2 wants 9.
abbrev one : Container
one = record new_service_container {
  registrations = record {
    m = (1, record { ctor = ctor 1 []; lifetime = transient }) ∷ [];
    keys = 1 ∷ [];
  };
}

abbrev aliased : Container
aliased = record one { aliases = record { m = (9, 1) ∷ []; keys = 9 ∷ [] } }

abbrev captive : Container
captive = record aliased {
  registrations = record {
    m =
        (1, record { ctor = ctor 1 []; lifetime = transient })
        ∷ (2, record { ctor = ctor 2 (9 ∷ []); lifetime = singleton })
        ∷ [];
    keys = 1 ∷ 2 ∷ [];
  };
}

one_built : register_service reflect new_service_container 1 (ctor 1 []) transient ≡ done one
unfolding register_service has set
one_built = refl

aliased_built : register_service_alias reflect one 1 9 ≡ done aliased
unfolding register_service_alias has set all
aliased_built = refl

alias_refused : register_service reflect aliased 9 (ctor 9 []) singleton ≡ panic registered_as_alias
unfolding register_service has
alias_refused = refl

captive_found : validate_lifetimes captive ≡ some (captive_dependency 2 1)
unfolding validate_lifetimes get has all alias_target
captive_found = refl

aliased-Reachable : Reachable reflect aliased
aliased-Reachable =
    Reachable.by_alias one aliased 1 9
      (Reachable.by_service new_service_container one 1 (ctor 1 []) transient Reachable.new
        one_built)
      aliased_built

Reachable-AliasesAreFlat_example : AliasesAreFlat reflect aliased
Reachable-AliasesAreFlat_example = Reachable-AliasesAreFlat reflect aliased aliased-Reachable

validate_lifetimes_iff_example :
    (validate_lifetimes captive ≡ none)
    ↔ NoCaptives captive (all zero_registration captive.registrations)
validate_lifetimes_iff_example = validate_lifetimes_iff captive
