-- ===== src/Worker.antt =====
-- worker.go and service_management.go: the services that a Worker runs, CloseService,
-- RestartService and Shutdown. Each runs without another goroutine's call between its steps. The code
-- of services and of subscribers (`close`, `init`, `run` and App's hook) is a parameter over the bus
-- and the rest of the world; it may do anything there, but does not call the Worker, and `close`
-- and `init` do not panic.
pub mod Active
pub mod Lifecycle
pub mod Restart
pub mod Tests
use gas.Prelude.{
  ℕ, nat_eq, String, string_eq, ◌==◌, Bool, true, false, not, ◌&&◌, ◌||◌, Option, none, some, List,
  [], ◌∷◌, ◌++◌, if◌then◌else◌, ℤ, pos, negsuc, is_positive,
}
use gas.Maps
use gas.Maps.{Map}
use gas.OrderedMap.{get, all}
use gas.EventBus.{EventBus, Outcome, Delivery, emit, remove_by_service}
use gas.Di.{TypeId, alias_target}
use gas.Di.Container.{Value, Reflect, Container}

pub record Worker : Type 0 where
  pub container : Container
  pub active_services : Map String ℕ
  pub service_order : List ℕ
  pub shut_down : Bool

-- `timed_out` is an Init that fails past its deadline; `late_init` one that returns nil there, with the
-- error of the Close that follows.
pub data WorkerError : Type 0 where
  worker_shut_down no_built_instance not_active already_active not_found : WorkerError
  negative_timeout : WorkerError
  init_failed timed_out : ℕ → WorkerError
  late_init : Option ℕ → WorkerError

-- A nil error is `none`.
abbrev pub Err : Type 0
Err = Option WorkerError

-- How Init ended: its error, whether the caller's context is done, and whether the init deadline is past.
pub record InitEnd : Type 0 where
  pub error : Option ℕ
  pub ctx_done : Bool
  pub past_deadline : Bool

-- What a Service is asked: its name, and the InitTimeout of those that have one.
pub record Services : Type 0 where
  pub name : ℕ → String
  pub init_timeout : ℕ → Option ℤ

-- resolveBuilt: the type assertion asks for the dynamic type, or that it implements an interface.
unfoldable pub resolve_built : Reflect → Container → TypeId → Option ℕ
resolve_built r c t = elim (get c.instances (alias_target c.aliases t)) [
  | none ↦ none
  | some v ↦
      if (if r.is_interface t then r.implements v.dynamic t else v.dynamic == t)
      then some v.identity
      else none
]

-- `for _, s := range w.serviceOrder { if s.Name() == name { svc = s; break } }`
abbrev pub find_service : Services → String → List ℕ → Option ℕ
find_service svcs name [] = none
find_service svcs name (s ∷ order) =
    if svcs.name s == name then some s else find_service svcs name order

-- slices.Backward
abbrev pub backward : List ℕ → List ℕ
backward [] = []
backward (s ∷ order) = backward order ++ s ∷ []

-- The loop of closeActive over serviceOrder backward: what is to be closed, and what stays active.
unfoldable pub take_active : Services → List ℕ → Map String ℕ → List ℕ × Map String ℕ
take_active svcs [] active = ([], active)
take_active svcs (s ∷ order) active =
    let is_active = Maps.has (svcs.name s) active in
    let rest =
      take_active svcs order (if is_active then Maps.delete (svcs.name s) active else active) in
    if is_active then (s ∷ rest.0, rest.1) else rest

-- The collection of InitServices: each Service of the instances, once per name.
unfoldable pub track : Reflect → Services → List (TypeId × Value) → Worker → Worker
track r svcs [] w = w
track r svcs ((t, v) ∷ instances) w = track r svcs instances (
    if r.implements v.dynamic r.service_type
      && not (Maps.has (svcs.name v.identity) w.active_services)
    then record w {
      active_services = Maps.insert (svcs.name v.identity) v.identity w.active_services;
      service_order = w.service_order ++ v.identity ∷ [];
    }
    else w)

module _ {X : Type 0} (r : Reflect) (svcs : Services)
    (close : ℕ → EventBus String × X → Option ℕ × (EventBus String × X))
    (init : ℕ → Bool → EventBus String × X → InitEnd × (EventBus String × X))
    (on_service_close : Option (ℕ → EventBus String × X → EventBus String × X))
    (run : ℕ → String → EventBus String × X → Outcome × (EventBus String × X)) where
  -- closeServices: the errors of those that fail.
  unfoldable pub close_services :
      List ℕ → EventBus String × X → List (ℕ × ℕ) × (EventBus String × X)
  close_services [] w = ([], w)
  close_services (s ∷ services) w =
      let (e, w') = close s w in
      let (errs, w'') = close_services services w' in
      (elim e [ none ↦ errs | some x ↦ (s, x) ∷ errs ], w'')

  unfoldable pub close_active :
      Worker → EventBus String × X → List (ℕ × ℕ) × (Worker × (EventBus String × X))
  unfolding close_services take_active
  close_active w world =
      let (closing, active) = take_active svcs (backward w.service_order) w.active_services in
      let (errs, world') = close_services closing world in
      (errs, (record w { active_services = active }, world'))

  -- The first Shutdown; shutdownOnce has later calls return nil without a step.
  unfoldable pub shutdown :
      Worker → EventBus String × X → List (ℕ × ℕ) × (Worker × (EventBus String × X))
  unfolding close_active
  shutdown w world =
      let (ds, world') = emit run "SystemShuttingDown" "" world in
      close_active (record w { shut_down = true }) world'

  -- App's hook, where there is one, and the removal of the subscriptions.
  hooked : ℕ → EventBus String × X → EventBus String × X
  hooked s world = elim on_service_close [ none ↦ world | some hook ↦ hook s world ]

  unfoldable pub detach : ℕ → EventBus String × X → EventBus String × X
  unfolding hooked
  detach s world = let (bus, x) = hooked s world in (remove_by_service bus (svcs.name s), x)

  unfoldable pub close_found :
      Worker → EventBus String × X → ℕ → Option ℕ → Err × (Worker × (EventBus String × X))
  unfolding detach
  close_found w world s none = (some not_active, (w, world))
  close_found w world s (some svc) =
      let (e, world') = close svc (detach s world) in
      let (ds, world'') = emit run "SystemServiceClosed" (svcs.name s) world' in
      (none, (record w { active_services = Maps.delete (svcs.name s) w.active_services }, world''))

  unfoldable pub close_service :
      TypeId → Worker → EventBus String × X → Err × (Worker × (EventBus String × X))
  unfolding close_found resolve_built
  close_service t w world =
      if w.shut_down
      then (some worker_shut_down, (w, world))
      else elim (resolve_built r w.container t) [
        | none ↦ (some no_built_instance, (w, world))
        | some s ↦ close_found w world s (Maps.lookup (svcs.name s) w.active_services)
      ]

  -- initService after Init has returned.
  unfoldable pub init_ended : ℕ → InitEnd × (EventBus String × X) → Err × (EventBus String × X)
  init_ended svc (end, world) =
      if end.ctx_done || not end.past_deadline
      then (elim end.error [ none ↦ none | some e ↦ some (init_failed e) ], world)
      else elim end.error [
        | some e ↦ (some (timed_out e), world)
        | none ↦ (let (closed, world') = close svc world in (some (late_init closed), world'))
      ]

  -- initService: the flag of `init` is whether Init runs under a deadline of its own.
  unfoldable pub init_service : ℤ → ℕ → EventBus String × X → Err × (EventBus String × X)
  unfolding init_ended
  init_service default_timeout svc world =
      let run_init : ℤ → Err × (EventBus String × X) =
        λ timeout. init_ended svc (init svc (is_positive timeout) world) in
      elim (svcs.init_timeout svc) [
        | none ↦ run_init default_timeout
        | some (pos n) ↦ run_init (pos n)
        | some (negsuc n) ↦ (some negative_timeout, world)
      ]

  unfoldable pub restarted :
      Worker → String → ℕ → Err × (EventBus String × X) → Err × (Worker × (EventBus String × X))
  restarted w name svc (some e, world) = (some e, (w, world))
  restarted w name svc (none, world) =
      let (ds, world') = emit run "SystemServiceInitialized" name world in
      (none, (record w { active_services = Maps.insert name svc w.active_services }, world'))

  unfoldable pub restart_found :
      ℤ → Worker → EventBus String × X → String → Err × (Worker × (EventBus String × X))
  unfolding restarted init_service
  restart_found timeout w world name =
      if Maps.has name w.active_services
      then (some already_active, (w, world))
      else elim (find_service svcs name w.service_order) [
        | none ↦ (some not_found, (w, world))
        | some svc ↦ restarted w name svc (init_service timeout svc world)
      ]

  unfoldable pub restart_service :
      ℤ → TypeId → Worker → EventBus String × X → Err × (Worker × (EventBus String × X))
  unfolding restart_found resolve_built
  restart_service timeout t w world =
      if w.shut_down
      then (some worker_shut_down, (w, world))
      else elim (resolve_built r w.container t) [
        | none ↦ (some no_built_instance, (w, world))
        | some s ↦ restart_found timeout w world (svcs.name s)
      ]
