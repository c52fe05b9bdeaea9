-- ===== src/Worker/Active.antt =====
-- The set of active services against the order of initialization.
use gas.Prelude.{
  ℕ, nat_eq, String, string_eq, ◌==◌, ◌≡◌, refl, sym, ◌∙◌, false, not, ◌&&◌, none, some, List, [],
  ◌∷◌, ◌++◌, if◌then◌else◌, contains, Distinct, keep_if, arith, Bool-cases, Option-cases, inl, inr,
  contains-append, Distinct-snoc,
}
use gas.Maps
use gas.Maps.{Map}
use gas.Maps.Laws.{lookup-insert, lookup-delete}
use gas.Di.{TypeId}
use gas.Di.Container.{Value, Reflect}
use gas.Worker.{Worker, Services, find_service, backward, take_active, track}

module _ (svcs : Services) where
  abbrev pub names : List ℕ → List String
  names [] = []
  names (s ∷ order) = svcs.name s ∷ names order

  -- The active ones, in their order
  abbrev pub active_in : Map String ℕ → List ℕ → List ℕ
  active_in active order = keep_if (λ s. Maps.has (svcs.name s) active) order

  -- Every name is in the order once, and an active name has the instance that stands there.
  pub record IsValid (w : Worker) : Type 0 where
    pub distinct : Distinct (names w.service_order)
    pub known :
        (name : String) (s : ℕ)
        → Maps.lookup name w.active_services ≡ some s
        → find_service svcs name w.service_order ≡ some s

  find_service-contains :
      (name : String) (order : List ℕ)
      → Maps.is_some (find_service svcs name order) ≡ contains (names order) name
  find_service-contains name [] = refl
  find_service-contains name (s ∷ order) = ground (arith, find_service-contains name order)

  active_in-delete :
      (name : String) (active : Map String ℕ) (order : List ℕ)
      → contains (names order) name ≡ false
      → active_in (Maps.delete name active) order ≡ active_in active order
  active_in-delete name active [] h = refl
  active_in-delete name active (s ∷ order) h = ground (
    arith,
    active_in-delete name active order,
    lookup-delete name (svcs.name s) active,
    string_eq.eq_iff name (svcs.name s),
    string_eq.eq_iff (svcs.name s) name,
  )

  -- Exactly the active ones are taken, in the order, and no other entry of the map goes.
  pub take_active-active_in :
      (order : List ℕ) (active : Map String ℕ)
      → Distinct (names order)
      → ((take_active svcs order active).0 ≡ active_in active order)
        × ((k : String)
            → Maps.lookup k (take_active svcs order active).1
              ≡ (if contains (names order) k then none else Maps.lookup k active))
  unfolding take_active
  take_active-active_in [] active d = (refl, λ k. refl)
  take_active-active_in (s ∷ order) active d = elim (Bool-cases (Maps.has (svcs.name s) active)) [
    | inl on ↦
        let ih = take_active-active_in order (Maps.delete (svcs.name s) active) d.1 in
        rw (on, take_active)
          (
            ground (arith, ih.0, active_in-delete (svcs.name s) active order d.0),
            λ k. ground (arith, ih.1 k, lookup-delete (svcs.name s) k active),
          )
    | inr off ↦
        let ih = take_active-active_in order active d.1 in
        rw (off, take_active) (ih.0, λ k. ground (arith, ih.1 k, string_eq.eq_iff (svcs.name s) k))
  ]

  names-append : (xs ys : List ℕ) → names (xs ++ ys) ≡ names xs ++ names ys
  names-append [] ys = refl
  names-append (x ∷ xs) ys = rw (names-append xs ys)

  contains-backward :
      (order : List ℕ) (k : String) → contains (names (backward order)) k ≡ contains (names order) k
  contains-backward [] k = refl
  contains-backward (s ∷ order) k =
      rw
        (
          names-append (backward order) (s ∷ []),
          contains-append (names (backward order)) (names (s ∷ [])) k,
        )
        (ground (arith, contains-backward order k))

  pub Distinct-backward :
      (order : List ℕ) → Distinct (names order) → Distinct (names (backward order))
  Distinct-backward [] d = tt
  Distinct-backward (s ∷ order) d = rw (names-append (backward order) (s ∷ [])) (
      Distinct-snoc (names (backward order)) (svcs.name s) (Distinct-backward order d.1)
        (contains-backward order (svcs.name s) ∙ d.0))

  -- Closing everything that is active takes the active services of the order, newest first, and
  -- leaves none.
  pub take_active-backward :
      (w : Worker)
      → IsValid w
      → ((take_active svcs (backward w.service_order) w.active_services).0
          ≡ active_in w.active_services (backward w.service_order))
        × ((k : String)
            → Maps.lookup k (take_active svcs (backward w.service_order) w.active_services).1
              ≡ none)
  take_active-backward w v =
      let (taken, left) =
        take_active-active_in (backward w.service_order) w.active_services
          (Distinct-backward w.service_order v.distinct) in
      (
        taken,
        λ k. elim (Option-cases (Maps.lookup k w.active_services)) [
          | inl off ↦ ground (arith, left k)
          | inr (s, on) ↦ ground (
            arith,
            left k,
            contains-backward w.service_order k,
            find_service-contains k w.service_order,
            v.known k s on,
          )
        ],
      )

  find_service-snoc :
      (name : String) (order : List ℕ) (s : ℕ)
      → find_service svcs name (order ++ s ∷ []) ≡ (
          if contains (names order) name
          then find_service svcs name order
          else (if svcs.name s == name then some s else none))
  find_service-snoc name [] s = refl
  find_service-snoc name (x ∷ order) s = ground (arith, find_service-snoc name order s)

  -- Is every name of the order active?
  pub record AllActive (w : Worker) : Type 0 where
    pub valid : IsValid w
    pub active :
        (name : String) → Maps.has name w.active_services ≡ contains (names w.service_order) name

  pub track_one-AllActive :
      (w : Worker) (s : ℕ)
      → AllActive w
      → Maps.has (svcs.name s) w.active_services ≡ false
      → AllActive (record w {
        active_services = Maps.insert (svcs.name s) s w.active_services;
        service_order = w.service_order ++ s ∷ [];
      })
  track_one-AllActive w s v new = record {
    valid = record {
      distinct = rw (names-append w.service_order (s ∷ [])) (
          Distinct-snoc (names w.service_order) (svcs.name s) v.valid.distinct
            (sym (v.active (svcs.name s)) ∙ new));
      known = λ name x h. ground (
        arith,
        find_service-snoc name w.service_order s,
        lookup-insert (svcs.name s) name s w.active_services,
        v.active name,
        v.active (svcs.name s),
        v.valid.known name x,
        string_eq.eq_iff (svcs.name s) name,
      );
    };
    active = λ name.
        rw
          (
            names-append w.service_order (s ∷ []),
            contains-append (names w.service_order) (names (s ∷ [])) name,
          )
          (ground (arith, lookup-insert (svcs.name s) name s w.active_services, v.active name));
  }

  -- After InitServices has collected the services, the order has each name once and exactly these are active.
  pub track-AllActive :
      (r : Reflect) (instances : List (TypeId × Value)) (w : Worker)
      → AllActive w
      → AllActive (track r svcs instances w)
  unfolding track
  track-AllActive r [] w v = v
  track-AllActive r ((t, x) ∷ instances) w v =
      elim (Bool-cases (
        r.implements x.dynamic r.service_type
        && not (Maps.has (svcs.name x.identity) w.active_services))) [
          | inl new ↦
              rw (new, track)
                (track-AllActive r instances _ (track_one-AllActive w x.identity v (ground arith)))
          | inr old ↦ rw (old, track) (track-AllActive r instances w v)
        ]
