-- ===== src/EventBus.antt =====
-- eventbus.go: the publish/subscribe bus with service ownership. An event type is a key, a handler
-- is named by an identifier, and what a handler does is the parameter `run`: it may change the bus
-- and the rest of the world, and may panic.
pub mod Removal
pub mod Dispatch
pub mod Tests
use gas.Prelude.{
  ℕ, Eq, string_eq, ◌==◌, String, Bool, true, false, not, Option, none, some, List, [], ◌∷◌, ◌++◌,
  if◌then◌else◌, keep_if,
}
use gas.Maps
use gas.Maps.{Map}

-- subscriberEntry; Subscribe leaves the owner empty.
pub record Subscriber : Type 0 where
  pub handler : ℕ
  pub owner : String

pub record EventBus (E : Type 0) : Type 0 where
  pub subscribers : Map E (List Subscriber)

abbrev pub new_event_bus : {E : Type 0} → EventBus E
new_event_bus = record { subscribers = [] }

-- The nil slice for a missing key.
abbrev pub or_nil : Option (List Subscriber) → List Subscriber
or_nil none = []
or_nil (some subs) = subs

module _ {E : Type 0} ⦃e : Eq E⦄ where
  -- `bus.subscribers[key]`, nil where the key is missing
  abbrev pub subscribers_of : EventBus E → E → List Subscriber
  subscribers_of bus key = or_nil (Maps.lookup key bus.subscribers)

  pub add : EventBus E → E → Subscriber → EventBus E
  add bus key s = record bus {
    subscribers = Maps.insert key (subscribers_of bus key ++ s ∷ []) bus.subscribers;
  }

  unfoldable pub subscribe : EventBus E → E → ℕ → EventBus E
  unfolding add
  subscribe bus key handler = add bus key (record { handler = handler; owner = "" })

  unfoldable pub subscribe_with_owner : EventBus E → E → String → ℕ → EventBus E
  unfolding add
  subscribe_with_owner bus key service handler =
      add bus key (record { handler = handler; owner = service })

-- The inner loop of RemoveByService.
unfoldable pub not_owned_by : String → List Subscriber → List Subscriber
not_owned_by name = keep_if (λ s. not (s.owner == name))

-- `if len(filtered) == 0 { delete … } else { bus.subscribers[e] = filtered }`, for one event.
abbrev pub keep_bucket :
    {E : Type 0} → E → List Subscriber → Map E (List Subscriber) → Map E (List Subscriber)
keep_bucket key [] rest = rest
keep_bucket key (s ∷ filtered) rest = (key, s ∷ filtered) ∷ rest

unfoldable pub remove_owned :
    {E : Type 0} → String → Map E (List Subscriber) → Map E (List Subscriber)
unfolding not_owned_by
remove_owned name [] = []
remove_owned name ((key, subs) ∷ rest) =
    keep_bucket key (not_owned_by name subs) (remove_owned name rest)

unfoldable pub remove_by_service : {E : Type 0} → EventBus E → String → EventBus E
unfolding remove_owned
remove_by_service bus name = record bus { subscribers = remove_owned name bus.subscribers }

pub data Outcome : Type 0 where
  returned : Outcome
  panicked : ℕ → Outcome

-- What is left of one handler's run: which subscriber, and how it ended. A recovered panic goes to
-- handlePanic, which logs the event and the owner.
pub record Delivery : Type 0 where
  pub to : Subscriber
  pub outcome : Outcome

module _ {E D W : Type 0} ⦃e : Eq E⦄
    (run : ℕ → D → EventBus E × W → Outcome × (EventBus E × W)) where
  -- One goroutine for each subscriber of the snapshot, in the order in which they are started.
  unfoldable pub dispatch : List Subscriber → D → EventBus E × W → List Delivery × (EventBus E × W)
  dispatch [] payload w = ([], w)
  dispatch (s ∷ subs) payload w =
      let (outcome, w') = run s.handler payload w in
      let (rest, w'') = dispatch subs payload w' in
      (record { to = s; outcome = outcome } ∷ rest, w'')

  unfoldable pub emit : E → D → EventBus E × W → List Delivery × (EventBus E × W)
  unfolding dispatch
  emit key payload w = dispatch (subscribers_of w.0 key) payload w

abbrev pub has_panicked : Delivery → Bool
has_panicked d = elim d.outcome [ returned ↦ false | panicked v ↦ true ]

-- The owners that handlePanic names in its log entries.
abbrev pub panic_log : List Delivery → List String
panic_log [] = []
panic_log (d ∷ ds) = if has_panicked d then d.to.owner ∷ panic_log ds else panic_log ds
