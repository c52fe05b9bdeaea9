-- ===== src/Worker/Tests.antt =====
-- A worker with two services, and the theorems at it.
use gas.Prelude.{
  ℕ, ◌+◌, String, ◌==◌, nat_eq, ◌≡◌, refl, true, false, none, some, Option, Bool, List, [], ◌∷◌,
  pos, ℤ, string_eq, if◌then◌else◌,
}
use gas.Maps
use gas.OrderedMap.{get}
use gas.EventBus.{EventBus, new_event_bus, Outcome, returned, emit}
use gas.Di.{TypeId, alias_target}
use gas.Di.Container.{Value, Reflect, Container, new_service_container}
use gas.Worker.{
  worker_shut_down, Worker, InitEnd, Services, backward, take_active, track, resolve_built,
  close_services, close_active, shutdown, detach, close_found, close_service, init_service,
  restart_service,
}
use gas.Worker.Active.{active_in, IsValid, AllActive, track-AllActive}
use gas.Worker.Lifecycle.{After, After-IsValid, Closings, shutdown-closes}
use gas.Worker.Restart.{restart_service-close_service}

abbrev World : Type 0
World = EventBus String × ℕ

-- Types 1 and 2 are services, and 100 is the type Service.
abbrev reflect : Reflect
reflect = record {
  is_interface = λ t. false;
  is_pointer = λ t. true;
  pointer_to = λ t. t;
  declares = λ t name. false;
  implements = λ t i. i == 100;
  assignable_to = λ t u. t == u;
  error_type = 101;
  service_type = 100;
}

abbrev svcs : Services
svcs = record { name = λ s. if s == 7 then "db" else "web"; init_timeout = λ s. none }

-- Every Close fails, and counts.
abbrev close : ℕ → World → Option ℕ × World
close s (bus, n) = (some 5, (bus, n + 1))

abbrev init : ℕ → Bool → World → InitEnd × World
init s deadline world = (record { error = none; ctx_done = false; past_deadline = false }, world)

abbrev run : ℕ → String → World → Outcome × World
run handler payload world = (returned, world)

abbrev values : List (TypeId × Value)
values = (1, record { identity = 7; dynamic = 1 }) ∷ (2, record { identity = 8; dynamic = 2 }) ∷ []

abbrev container : Container
container = record new_service_container { instances = record { keys = 1 ∷ 2 ∷ []; m = values } }

abbrev fresh : Worker
fresh = record {
  container = container;
  active_services = [];
  service_order = [];
  shut_down = false;
}

abbrev started : Worker
started = track reflect svcs values fresh

abbrev world : World
world = (new_event_bus, 0)

fresh-AllActive : AllActive svcs fresh
fresh-AllActive = record {
  valid = record { distinct = tt; known = λ name s h. cc };
  active = λ name. refl;
}

started-IsValid : IsValid svcs started
started-IsValid = (track-AllActive svcs reflect values fresh fresh-AllActive).valid

-- "web" was initialized last, and is closed first.
shutdown_order : (shutdown reflect svcs close init none run started world).0 ≡ (8, 5) ∷ (7, 5) ∷ []
unfolding shutdown close_active close_services take_active track emit gas.EventBus.dispatch
shutdown_order = refl

After-IsValid_example :
    IsValid svcs
      (restart_service reflect svcs close init none run
        (pos 15)
        1
        (close_service reflect svcs close init none run 1 started world).1.0
        world).1.0
After-IsValid_example =
    After-IsValid reflect svcs close init none run started _
      (After.by_restart _ (pos 15) 1 world (After.by_close started 1 world After.unchanged))
      started-IsValid

shutdown-closes_example :
    Closings reflect svcs close init none run
      (active_in svcs started.active_services (backward started.service_order))
      (emit run "SystemShuttingDown" "" world).1
      (shutdown reflect svcs close init none run started world).0
      (shutdown reflect svcs close init none run started world).1.1
    × ((k : String)
        → Maps.lookup k
            (shutdown reflect svcs close init none run started world).1.0.active_services
          ≡ none)
    × IsValid svcs (shutdown reflect svcs close init none run started world).1.0
    × ((t : TypeId) (later : World)
        → close_service reflect svcs close init none run t
            (shutdown reflect svcs close init none run started world).1.0
            later
          ≡ (
            some worker_shut_down,
            ((shutdown reflect svcs close init none run started world).1.0, later),
          ))
    × ((timeout : ℤ) (t : TypeId) (later : World)
        → restart_service reflect svcs close init none run timeout t
            (shutdown reflect svcs close init none run started world).1.0
            later
          ≡ (
            some worker_shut_down,
            ((shutdown reflect svcs close init none run started world).1.0, later),
          ))
shutdown-closes_example =
    shutdown-closes reflect svcs close init none run started world started-IsValid

db_closed : (close_service reflect svcs close init none run 1 started world).0 ≡ none
unfolding close_service close_found resolve_built detach track get alias_target
db_closed = refl

restart_service-close_service_example :
    (s : ℕ) × (svc : ℕ) × (resolve_built reflect started.container 1 ≡ some s)
    × (Maps.lookup (svcs.name s) started.active_services ≡ some svc)
    × ((restart_service reflect svcs close init none run
          (pos 15)
          1
          (close_service reflect svcs close init none run 1 started world).1.0
          world).0
        ≡ (init_service reflect svcs close init none run (pos 15) svc world).0)
    × ((init_service reflect svcs close init none run (pos 15) svc world).0 ≡ none
        → (k : String)
        → Maps.lookup k
            (restart_service reflect svcs close init none run
              (pos 15)
              1
              (close_service reflect svcs close init none run 1 started world).1.0
              world).1.0.active_services
          ≡ Maps.lookup k started.active_services)
restart_service-close_service_example =
    restart_service-close_service reflect svcs close init none run (pos 15) 1 started world world
      started-IsValid db_closed
