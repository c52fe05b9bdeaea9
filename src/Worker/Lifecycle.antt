-- ===== src/Worker/Lifecycle.antt =====
-- CloseService, RestartService and Shutdown on the active services.
use gas.Prelude.{
  ℕ, nat_eq, String, string_eq, ◌≡◌, refl, Bool, true, Option, none, some, List, [], ◌∷◌, arith,
  Bool-cases, Option-cases, inl, inr, ℤ,
}
use gas.Maps
use gas.Maps.{Map}
use gas.Maps.Laws.{lookup-insert, lookup-delete}
use gas.EventBus.{EventBus, Outcome, emit}
use gas.Di.{TypeId}
use gas.Di.Container.{Reflect}
use gas.Worker.{
  Worker, worker_shut_down, Err, InitEnd, Services, find_service, backward, take_active,
  resolve_built, close_services, close_active, shutdown, close_found, close_service, init_service,
  restarted, restart_found, restart_service,
}
use gas.Worker.Active.{active_in, IsValid, take_active-backward}

module _ {X : Type 0} (r : Reflect) (svcs : Services)
    (close : ℕ → EventBus String × X → Option ℕ × (EventBus String × X))
    (init : ℕ → Bool → EventBus String × X → InitEnd × (EventBus String × X))
    (hook : Option (ℕ → EventBus String × X → EventBus String × X))
    (run : ℕ → String → EventBus String × X → Outcome × (EventBus String × X)) where
  IsValid-subset :
      (w : Worker) (active : Map String ℕ)
      → IsValid svcs w
      → ((k : String) (s : ℕ)
          → Maps.lookup k active ≡ some s
          → find_service svcs k w.service_order ≡ some s)
      → IsValid svcs (record w { active_services = active })
  IsValid-subset w active v f = record { distinct = v.distinct; known = f }

  close_found-IsValid :
      (w : Worker) (world : EventBus String × X) (s : ℕ) (found : Option ℕ)
      → IsValid svcs w
      → IsValid svcs (close_found r svcs close init hook run w world s found).1.0
  unfolding close_found
  close_found-IsValid w world s none v = v
  close_found-IsValid w world s (some svc) v =
      IsValid-subset w (Maps.delete (svcs.name s) w.active_services) v
        (λ k x h. v.known k x (ground (arith, lookup-delete (svcs.name s) k w.active_services)))

  -- CloseService keeps the worker valid, whatever the service and the subscribers do.
  pub close_service-IsValid :
      (t : TypeId) (w : Worker) (world : EventBus String × X)
      → IsValid svcs w
      → IsValid svcs (close_service r svcs close init hook run t w world).1.0
  unfolding close_service
  close_service-IsValid t w world v = elim (Bool-cases w.shut_down) [
    | inl down ↦ simp (down, close_service) v
    | inr up ↦ elim (Option-cases (resolve_built r w.container t)) [
      | inl missing ↦ simp (up, missing, close_service) v
      | inr (s, built) ↦
          simp (up, built, close_service)
            (close_found-IsValid w world s (Maps.lookup (svcs.name s) w.active_services) v)
    ]
  ]

  restarted-IsValid :
      (w : Worker) (name : String) (svc : ℕ) (out : Err × (EventBus String × X))
      → IsValid svcs w
      → find_service svcs name w.service_order ≡ some svc
      → IsValid svcs (restarted r svcs close init hook run w name svc out).1.0
  unfolding restarted
  restarted-IsValid w name svc (some e, world) v f = v
  restarted-IsValid w name svc (none, world) v f =
      IsValid-subset w (Maps.insert name svc w.active_services) v (λ k x h. ground (
        arith,
        f,
        v.known k x,
        lookup-insert name k svc w.active_services,
        string_eq.eq_iff name k,
      ))

  restart_found-IsValid :
      (timeout : ℤ) (w : Worker) (world : EventBus String × X) (name : String)
      → IsValid svcs w
      → IsValid svcs (restart_found r svcs close init hook run timeout w world name).1.0
  unfolding restart_found
  restart_found-IsValid timeout w world name v =
      elim (Bool-cases (Maps.has name w.active_services)) [
        | inl on ↦ rw (on, restart_found) v
        | inr off ↦ elim (Option-cases (find_service svcs name w.service_order)) [
          | inl missing ↦ rw (off, missing, restart_found) v
          | inr (svc, found) ↦
              rw (off, found, restart_found)
                (restarted-IsValid w name svc
                  (init_service r svcs close init hook run timeout svc world) v found)
        ]
      ]

  -- RestartService keeps the worker valid, whatever the service and the subscribers do.
  pub restart_service-IsValid :
      (timeout : ℤ) (t : TypeId) (w : Worker) (world : EventBus String × X)
      → IsValid svcs w
      → IsValid svcs (restart_service r svcs close init hook run timeout t w world).1.0
  unfolding restart_service
  restart_service-IsValid timeout t w world v = elim (Bool-cases w.shut_down) [
    | inl down ↦ simp (down, restart_service) v
    | inr up ↦ elim (Option-cases (resolve_built r w.container t)) [
      | inl missing ↦ simp (up, missing, restart_service) v
      | inr (s, built) ↦
          simp (up, built, restart_service) (restart_found-IsValid timeout w world (svcs.name s) v)
    ]
  ]

  -- The workers that a sequence of calls of CloseService and RestartService makes of one
  pub data After (w : Worker) : Worker → Type 0 where
    unchanged : After w w
    by_close :
        (v : Worker) (t : TypeId) (world : EventBus String × X)
        → After w v
        → After w (close_service r svcs close init hook run t v world).1.0
    by_restart :
        (v : Worker) (timeout : ℤ) (t : TypeId) (world : EventBus String × X)
        → After w v
        → After w (restart_service r svcs close init hook run timeout t v world).1.0

  -- Any sequence of CloseService and RestartService keeps the worker valid, whatever the services and
  -- the subscribers do to the bus and to the rest of the world, where they do not call the Worker.
  pub After-IsValid : (w v : Worker) → After w v → IsValid svcs w → IsValid svcs v
  After-IsValid w _ unchanged h = h
  After-IsValid w _ (by_close v t world before) h =
      close_service-IsValid t v world (After-IsValid w v before h)
  After-IsValid w _ (by_restart v timeout t world before) h =
      restart_service-IsValid timeout t v world (After-IsValid w v before h)

  -- Close is called on each service of the list in turn, in the world that the one before has left,
  -- and the errors of those that fail are answered.
  pub data Closings
      : List ℕ → EventBus String × X → List (ℕ × ℕ) → EventBus String × X → Type 0 where
    nothing : (w : EventBus String × X) → Closings [] w [] w
    fine :
        (s : ℕ) (order : List ℕ) (w v u : EventBus String × X) (errs : List (ℕ × ℕ))
        → close s w ≡ (none, v)
        → Closings order v errs u
        → Closings (s ∷ order) w errs u
    fails :
        (s e : ℕ) (order : List ℕ) (w v u : EventBus String × X) (errs : List (ℕ × ℕ))
        → close s w ≡ (some e, v)
        → Closings order v errs u
        → Closings (s ∷ order) w ((s, e) ∷ errs) u

  Closings-close_services :
      (order : List ℕ) (w : EventBus String × X)
      → Closings order w
          (close_services r svcs close init hook run order w).0
          (close_services r svcs close init hook run order w).1
  unfolding close_services
  Closings-close_services [] w = nothing w
  Closings-close_services (s ∷ order) w = by (λ v. Closings-close_services order v) (close s w) refl
    where
      by :
          ((v : EventBus String × X)
            → Closings order v
                (close_services r svcs close init hook run order v).0
                (close_services r svcs close init hook run order v).1)
          → (c : Option ℕ × (EventBus String × X)) → close s w ≡ c
          → Closings
              (s ∷ order)
              w
              (elim c.0 [
                | none ↦ (close_services r svcs close init hook run order c.1).0
                | some x ↦ (s, x) ∷ (close_services r svcs close init hook run order c.1).0
              ])
              (close_services r svcs close init hook run order c.1).1
      by rest (none, v) is = fine s order w v _ _ is (rest v)
      by rest (some e, v) is = fails s e order w v _ _ is (rest v)

  -- Shutdown calls Close on exactly the active services, newest first, once the subscribers of
  -- SystemShuttingDown have run, and each in the world that the one before has left; it leaves the
  -- world that the last has left, answers the errors of those that fail, and no service is active
  -- afterwards. The worker stays valid, and CloseService and RestartService then refuse and change
  -- nothing.
  pub shutdown-closes :
      (w : Worker) (world : EventBus String × X)
      → IsValid svcs w
      → Closings
          (active_in svcs w.active_services (backward w.service_order))
          (emit run "SystemShuttingDown" "" world).1
          (shutdown r svcs close init hook run w world).0
          (shutdown r svcs close init hook run w world).1.1
        × ((k : String)
            → Maps.lookup k (shutdown r svcs close init hook run w world).1.0.active_services
              ≡ none)
        × IsValid svcs (shutdown r svcs close init hook run w world).1.0
        × ((t : TypeId) (later : EventBus String × X)
            → close_service r svcs close init hook run t
                (shutdown r svcs close init hook run w world).1.0
                later
              ≡ (some worker_shut_down, ((shutdown r svcs close init hook run w world).1.0, later)))
        × ((timeout : ℤ) (t : TypeId) (later : EventBus String × X)
            → restart_service r svcs close init hook run timeout t
                (shutdown r svcs close init hook run w world).1.0
                later
              ≡ (some worker_shut_down, ((shutdown r svcs close init hook run w world).1.0, later)))
  unfolding shutdown close_active close_service restart_service
  shutdown-closes w world v =
      let (taken, left) = take_active-backward svcs w v in
      (
        rw (shutdown, close_active, taken)
            (Closings-close_services (active_in svcs w.active_services (backward w.service_order))
              (emit run "SystemShuttingDown" "" world).1),
        λ k. left k,
        IsValid-subset (record w { shut_down = true })
            (take_active svcs (backward w.service_order) w.active_services).1
            (record { distinct = v.distinct; known = v.known }) (λ k s h. ground (arith, left k)),
        λ t later. refl,
        λ timeout t later. refl,
      )

  -- A closed service is out of the active ones, and no other is; nothing else of the worker changes.
  pub close_service-active :
      (t : TypeId) (w : Worker) (world : EventBus String × X)
      → (close_service r svcs close init hook run t w world).0 ≡ none
      → (s : ℕ) × (resolve_built r w.container t ≡ some s)
        × (Maps.has (svcs.name s) w.active_services ≡ true)
        × ((close_service r svcs close init hook run t w world).1.0
            ≡ record w { active_services = Maps.delete (svcs.name s) w.active_services })
  unfolding close_service close_found
  close_service-active t w world h = elim (Bool-cases w.shut_down) [
    | inl down ↦ ground arith
    | inr up ↦ elim (Option-cases (resolve_built r w.container t)) [
      | inl missing ↦ ground arith
      | inr (s, built) ↦ elim (Option-cases (Maps.lookup (svcs.name s) w.active_services)) [
        | inl off ↦ ground arith
        | inr (svc, on) ↦ (s, built, ground arith, simp (up, built, on, close_service, close_found))
      ]
    ]
  ]
