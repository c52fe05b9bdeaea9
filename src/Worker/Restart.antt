-- ===== src/Worker/Restart.antt =====
-- RestartService after CloseService.
use gas.Prelude.{
  ℕ, nat_eq, String, string_eq, ◌≡◌, refl, ap, ◌∙◌, Bool, false, Option, none, some, arith,
  Bool-cases, Option-cases, inl, inr, ℤ,
}
use gas.Maps
use gas.Maps.{Map}
use gas.Maps.Laws.{lookup-insert, lookup-delete}
use gas.EventBus.{EventBus, Outcome}
use gas.Di.{TypeId}
use gas.Di.Container.{Reflect}
use gas.Worker.{
  Worker, Err, InitEnd, Services, find_service, resolve_built, close_found, close_service,
  init_service, restarted, restart_found, restart_service,
}
use gas.Worker.Active.{IsValid}

module _ {X : Type 0} (r : Reflect) (svcs : Services)
    (close : ℕ → EventBus String × X → Option ℕ × (EventBus String × X))
    (init : ℕ → Bool → EventBus String × X → InitEnd × (EventBus String × X))
    (hook : Option (ℕ → EventBus String × X → EventBus String × X))
    (run : ℕ → String → EventBus String × X → Outcome × (EventBus String × X)) where
  restarted-error :
      (w : Worker) (name : String) (svc : ℕ) (out : Err × (EventBus String × X))
      → ((restarted r svcs close init hook run w name svc out).0 ≡ out.0)
        × (out.0 ≡ none
            → (restarted r svcs close init hook run w name svc out).1.0
              ≡ record w { active_services = Maps.insert name svc w.active_services })
  unfolding restarted
  restarted-error w name svc (some e, world) = (refl, λ h. cc)
  restarted-error w name svc (none, world) = (refl, λ h. refl)

  lookup-insert-delete :
      (name k : String) (svc : ℕ) (active : Map String ℕ)
      → Maps.lookup name active ≡ some svc
      → Maps.lookup k (Maps.insert name svc (Maps.delete name active)) ≡ Maps.lookup k active
  lookup-insert-delete name k svc active h = ground (
    arith,
    lookup-insert name k svc (Maps.delete name active),
    lookup-delete name k active,
    string_eq.eq_iff name k,
  )

  restart_found-closed :
      (timeout : ℤ) (w : Worker) (world : EventBus String × X) (name : String) (svc : ℕ)
      → IsValid svcs w
      → Maps.lookup name w.active_services ≡ some svc
      → restart_found r svcs close init hook run timeout
          (record w { active_services = Maps.delete name w.active_services })
          world
          name
        ≡ restarted r svcs close init hook run
            (record w { active_services = Maps.delete name w.active_services })
            name
            svc
            (init_service r svcs close init hook run timeout svc world)
  unfolding restart_found
  restart_found-closed timeout w world name svc v on =
      let gone : Maps.has name (Maps.delete name w.active_services) ≡ false =
        ground (arith, lookup-delete name name w.active_services, string_eq.eq_iff name name) in
      let found : find_service svcs name w.service_order ≡ some svc = v.known name svc on in
      simp (gone, found, restart_found)

  closed_worker :
      (t : TypeId) (w : Worker) (world : EventBus String × X) (s svc : ℕ)
      → w.shut_down ≡ false
      → resolve_built r w.container t ≡ some s
      → Maps.lookup (svcs.name s) w.active_services ≡ some svc
      → (close_service r svcs close init hook run t w world).1.0
        ≡ record w { active_services = Maps.delete (svcs.name s) w.active_services }
  unfolding close_service close_found
  closed_worker t w world s svc up built on = simp (up, built, on, close_service, close_found)

  restart_resolved :
      (timeout : ℤ) (t : TypeId) (w : Worker) (world : EventBus String × X) (s : ℕ)
      → w.shut_down ≡ false
      → resolve_built r w.container t ≡ some s
      → restart_service r svcs close init hook run timeout t w world
        ≡ restart_found r svcs close init hook run timeout w world (svcs.name s)
  unfolding restart_service
  restart_resolved timeout t w world s up built = simp (up, built, restart_service)

  -- After a CloseService that answers no error, RestartService of the same type, whenever it is called
  -- next on that worker, answers what initService answers for the closed service, which is the one that
  -- was active under the name of the type's instance; where that is no error, the active services are
  -- the same instances under the same names as before the CloseService.
  pub restart_service-close_service :
      (timeout : ℤ) (t : TypeId) (w : Worker) (world later : EventBus String × X)
      → IsValid svcs w
      → (close_service r svcs close init hook run t w world).0 ≡ none
      → (s : ℕ) × (svc : ℕ) × (resolve_built r w.container t ≡ some s)
        × (Maps.lookup (svcs.name s) w.active_services ≡ some svc)
        × ((restart_service r svcs close init hook run timeout t
              (close_service r svcs close init hook run t w world).1.0
              later).0
            ≡ (init_service r svcs close init hook run timeout svc later).0)
        × ((init_service r svcs close init hook run timeout svc later).0 ≡ none
            → (k : String)
            → Maps.lookup k
                (restart_service r svcs close init hook run timeout t
                  (close_service r svcs close init hook run t w world).1.0
                  later).1.0.active_services
              ≡ Maps.lookup k w.active_services)
  unfolding close_service close_found
  restart_service-close_service timeout t w world later v h = elim (Bool-cases w.shut_down) [
    | inl down ↦ ground arith
    | inr up ↦ elim (Option-cases (resolve_built r w.container t)) [
      | inl missing ↦ ground arith
      | inr (s, built) ↦ elim (Option-cases (Maps.lookup (svcs.name s) w.active_services)) [
        | inl off ↦ ground arith
        | inr (svc, on) ↦
            let w' : Worker = record w {
              active_services = Maps.delete (svcs.name s) w.active_services;
            } in
            let gone = closed_worker t w world s svc up built on in
            let again =
              ap (λ u. restart_service r svcs close init hook run timeout t u later) gone
              ∙ restart_resolved timeout t w' later s up built
              ∙ restart_found-closed timeout w later (svcs.name s) svc v on in
            let out =
              restarted-error w' (svcs.name s) svc
                (init_service r svcs close init hook run timeout svc later) in
            (
              s,
              svc,
              built,
              on,
              rw (again) out.0,
              λ e k.
                  rw (again, out.1 e)
                    (lookup-insert-delete (svcs.name s) k svc w.active_services on),
            )
      ]
    ]
  ]
