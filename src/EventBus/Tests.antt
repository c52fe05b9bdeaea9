-- ===== src/EventBus/Tests.antt =====
-- Runs of the bus, and the theorems at concrete subscriptions.
use gas.Prelude.{
  ℕ, arith, nat_eq, string_eq, ◌≡◌, refl, false, [], ◌∷◌, if◌then◌else◌, ◌==◌, Distinct,
}
use gas.Maps
use gas.EventBus.{
  EventBus, Outcome, returned, panicked, new_event_bus, subscribe_with_owner, not_owned_by,
  remove_by_service, emit, panic_log,
}
use gas.EventBus.Removal.{IsValid}
use gas.EventBus.Dispatch.{owns_one, ownerless, recipients, emit-remove_by_service}

-- Handler 7 panics; every other one empties event 1.
abbrev run : ℕ → ℕ → EventBus ℕ × ℕ → Outcome × (EventBus ℕ × ℕ)
run handler payload (bus, w) =
    if handler == 7
    then (panicked payload, (bus, w))
    else (returned, (record { subscribers = Maps.insert 1 [] bus.subscribers }, w))

abbrev bus : EventBus ℕ
bus = record {
  subscribers =
      (1, record { handler = 5; owner = "a" } ∷ record { handler = 7; owner = "b" } ∷ [])
      ∷ (2, record { handler = 6; owner = "a" } ∷ [])
      ∷ [];
}

bus_built :
    subscribe_with_owner
      (subscribe_with_owner (subscribe_with_owner new_event_bus 1 "a" 5) 1 "b" 7)
      2
      "a"
      6
    ≡ bus
unfolding subscribe_with_owner
bus_built = refl

panics_are_logged : panic_log (emit run 1 3 (bus, 0)).0 ≡ "b" ∷ []
unfolding emit
panics_are_logged = refl

removed :
    remove_by_service bus "a"
    ≡ record { subscribers = (1, record { handler = 7; owner = "b" } ∷ []) ∷ [] }
unfolding remove_by_service
removed = refl

bus-Distinct : Distinct (Maps.keys bus.subscribers)
bus-Distinct = (refl, (refl, tt))

bus-IsValid : IsValid bus
bus-IsValid = record { distinct = bus-Distinct; nonempty = λ k. ground arith }

emit-remove_by_service_example :
    (owns_one "a" (recipients (emit run 1 3 (remove_by_service bus "a", 0)).0) ≡ false)
    × (recipients (emit run 1 3 (remove_by_service bus "a", 0)).0
        ≡ not_owned_by "a" (recipients (emit run 1 3 (bus, 0)).0))
    × (ownerless (recipients (emit run 1 3 (remove_by_service bus "a", 0)).0)
        ≡ ownerless (recipients (emit run 1 3 (bus, 0)).0))
emit-remove_by_service_example =
    emit-remove_by_service run 1 3 bus 0 "a" (λ h. ground (arith, string_eq.eq_iff "a" "", h))
      bus-Distinct
