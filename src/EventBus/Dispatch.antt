-- ===== src/EventBus/Dispatch.antt =====
-- What Emit delivers: one delivery for each subscriber of the snapshot, whatever the handlers do.
use gas.Prelude.{
  ℕ, Eq, string_eq, ◌==◌, ◌≡◌, ◌≢◌, refl, ap, String, Bool, true, false, List, [], ◌∷◌, ◌++◌, map,
  arith, if◌then◌else◌, Distinct, keep_if,
}
use gas.Maps
use gas.EventBus.{
  Subscriber, EventBus, subscribers_of, subscribe_with_owner, not_owned_by, remove_by_service,
  Delivery, Outcome, dispatch, emit, add,
}
use gas.Maps.Laws.{lookup-insert}
use gas.EventBus.Removal.{subscribers-remove_by_service}

abbrev pub recipients : List Delivery → List Subscriber
recipients = map (λ d. d.to)

-- Does the service `name` own one of the subscribers?
abbrev pub owns_one : String → List Subscriber → Bool
owns_one name [] = false
owns_one name (s ∷ subs) = if s.owner == name then true else owns_one name subs

-- The subscribers that Subscribe has registered
abbrev pub ownerless : List Subscriber → List Subscriber
ownerless = keep_if (λ s. s.owner == "")

ownerless-not_owned_by :
    (name : String)
    → name ≢ ""
    → (subs : List Subscriber) → ownerless (not_owned_by name subs) ≡ ownerless subs
unfolding not_owned_by
ownerless-not_owned_by name named [] = refl
ownerless-not_owned_by name named (s ∷ subs) = ground (
  arith,
  named,
  ownerless-not_owned_by name named subs,
  string_eq.eq_iff s.owner name,
  string_eq.eq_iff s.owner "",
)

owns-not_owned_by :
    (name : String) (subs : List Subscriber) → owns_one name (not_owned_by name subs) ≡ false
unfolding not_owned_by
owns-not_owned_by name [] = refl
owns-not_owned_by name (s ∷ subs) = ground (arith, owns-not_owned_by name subs)

subscribers-add :
    {E : Type 0} ⦃e : Eq E⦄ (key k : E) (bus : EventBus E) (s : Subscriber)
    → subscribers_of (add bus key s) k
      ≡ (if key == k then subscribers_of bus k ++ s ∷ [] else subscribers_of bus k)
unfolding add
subscribers-add ⦃e⦄ key k bus s =
    rw (lookup-insert key k (subscribers_of bus key ++ s ∷ []) bus.subscribers)
      (ground (arith, e.eq_iff key k))

module _ {E D W : Type 0} ⦃e : Eq E⦄
    (run : ℕ → D → EventBus E × W → Outcome × (EventBus E × W)) where
  recipients-dispatch :
      (subs : List Subscriber) (payload : D) (w : EventBus E × W)
      → recipients (dispatch run subs payload w).0 ≡ subs
  unfolding dispatch
  recipients-dispatch [] payload w = refl
  recipients-dispatch (s ∷ subs) payload w =
      ap (λ l. s ∷ l) (recipients-dispatch subs payload (run s.handler payload w).1)

  -- Emit runs each subscriber that the event has when Emit is called, once and in the order of
  -- registration: also when handlers panic, and whatever they subscribe or remove meanwhile.
  pub recipients-emit :
      (key : E) (payload : D) (bus : EventBus E) (w : W)
      → recipients (emit run key payload (bus, w)).0 ≡ subscribers_of bus key
  unfolding emit
  recipients-emit key payload bus w = recipients-dispatch (subscribers_of bus key) payload (bus, w)

  -- After RemoveByService of a service whose name is not empty, an Emit of any event reaches no
  -- subscriber of the service, and all of the other subscribers in their order, among them every one
  -- that has no owner.
  pub emit-remove_by_service :
      (key : E) (payload : D) (bus : EventBus E) (w : W) (name : String)
      → name ≢ ""
      → Distinct (Maps.keys bus.subscribers)
      → (owns_one name (recipients (emit run key payload (remove_by_service bus name, w)).0)
          ≡ false)
        × (recipients (emit run key payload (remove_by_service bus name, w)).0
            ≡ not_owned_by name (recipients (emit run key payload (bus, w)).0))
        × (ownerless (recipients (emit run key payload (remove_by_service bus name, w)).0)
            ≡ ownerless (recipients (emit run key payload (bus, w)).0))
  emit-remove_by_service key payload bus w name named d =
      let (kept, _) = subscribers-remove_by_service bus name key d in
      rw
        (
          recipients-emit key payload (remove_by_service bus name) w,
          recipients-emit key payload bus w,
          kept,
        )
        (
          owns-not_owned_by name (subscribers_of bus key),
          refl,
          ownerless-not_owned_by name named (subscribers_of bus key),
        )

  -- A new subscription is the last to be started for its event, and changes no other event.
  pub emit-subscribe_with_owner :
      (key k : E) (payload : D) (bus : EventBus E) (w : W) (name : String) (handler : ℕ)
      → recipients (emit run k payload (subscribe_with_owner bus key name handler, w)).0 ≡ (
          if key == k
          then recipients (emit run k payload (bus, w)).0
            ++ record { handler = handler; owner = name } ∷ []
          else recipients (emit run k payload (bus, w)).0)
  emit-subscribe_with_owner key k payload bus w name handler =
      rw
        (
          recipients-emit k payload (subscribe_with_owner bus key name handler) w,
          recipients-emit k payload bus w,
        )
        (unfold subscribe_with_owner in
          subscribers-add key k bus (record { handler = handler; owner = name }))
