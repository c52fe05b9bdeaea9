-- ===== src/EventBus/Removal.antt =====
-- What RemoveByService leaves.
use gas.Prelude.{
  ℕ, Eq, string_eq, ◌==◌, ◌≡◌, refl, String, Bool, true, false, not, Option, none, some, List, [],
  ◌∷◌, ◌++◌, if◌then◌else◌, arith, contains, Distinct, ◌∙◌,
}
use gas.Maps
use gas.Maps.{Map}
use gas.Maps.Laws.{Distinct-insert, contains-keys, lookup-insert}
use gas.EventBus.{
  Subscriber, EventBus, or_nil, subscribers_of, add, subscribe, subscribe_with_owner, not_owned_by,
  keep_bucket, remove_owned, remove_by_service,
}

abbrev pub is_nil {ℓ} : {A : Type ℓ} → List A → Bool
is_nil [] = true
is_nil (x ∷ xs) = false

-- What a lookup finds in a filtered bucket.
abbrev bucket : List Subscriber → Option (List Subscriber)
bucket [] = none
bucket (s ∷ subs) = some (s ∷ subs)

abbrev filtered : String → Option (List Subscriber) → Option (List Subscriber)
filtered name none = none
filtered name (some subs) = bucket (not_owned_by name subs)

filtered-none :
    (name : String) (o : Option (List Subscriber)) → Maps.is_some o ≡ false → filtered name o ≡ none
filtered-none name none h = refl
filtered-none name (some subs) h = cc

bucket_parts :
    (subs : List Subscriber)
    → (or_nil (bucket subs) ≡ subs) × (Maps.is_some (bucket subs) ≡ not (is_nil subs))
bucket_parts [] = (refl, refl)
bucket_parts (s ∷ subs) = (refl, refl)

both :
    (name : String) (o : Option (List Subscriber))
    → (or_nil (filtered name o) ≡ not_owned_by name (or_nil o))
      × (Maps.is_some (filtered name o) ≡ not (is_nil (not_owned_by name (or_nil o))))
unfolding not_owned_by
both name none = (refl, refl)
both name (some subs) = bucket_parts (not_owned_by name subs)

is_nil_snoc : (subs : List Subscriber) (s : Subscriber) → is_nil (subs ++ s ∷ []) ≡ false
is_nil_snoc [] s = refl
is_nil_snoc (x ∷ subs) s = refl

module _ {E : Type 0} ⦃e : Eq E⦄ where
  lookup-keep_bucket :
      (key k : E) (subs : List Subscriber) (rest : Map E (List Subscriber))
      → ((key == k) ≡ true → Maps.lookup k rest ≡ none)
      → Maps.lookup k (keep_bucket key subs rest)
        ≡ (if key == k then bucket subs else Maps.lookup k rest)
  lookup-keep_bucket key k [] rest h = ground arith
  lookup-keep_bucket key k (s ∷ subs) rest h = refl

  lookup-remove_owned :
      (name : String) (k : E) (m : Map E (List Subscriber))
      → Distinct (Maps.keys m)
      → Maps.lookup k (remove_owned name m) ≡ filtered name (Maps.lookup k m)
  unfolding remove_owned
  lookup-remove_owned name k [] d = refl
  lookup-remove_owned name k ((key, subs) ∷ m) d =
      let ih = lookup-remove_owned name k m d.1 in
      rw
        (lookup-keep_bucket key k (not_owned_by name subs) (remove_owned name m) (λ same.
          ih
          ∙ filtered-none name (Maps.lookup k m)
              (ground (arith, contains-keys key m, e.eq_iff key k))))
        (ground (arith, ih))

  -- The subscribers of every event after RemoveByService are those before it that the service does
  -- not own, in their order, and an event has a bucket exactly if one of these is left.
  pub subscribers-remove_by_service :
      (bus : EventBus E) (name : String) (k : E)
      → Distinct (Maps.keys bus.subscribers)
      → (subscribers_of (remove_by_service bus name) k ≡ not_owned_by name (subscribers_of bus k))
        × (Maps.has k (remove_by_service bus name).subscribers
            ≡ not (is_nil (not_owned_by name (subscribers_of bus k))))
  unfolding remove_by_service
  subscribers-remove_by_service bus name k d =
      rw (lookup-remove_owned name k bus.subscribers d) (both name (Maps.lookup k bus.subscribers))

  -- Every bucket holds a subscriber, and each event has one bucket.
  pub record IsValid (bus : EventBus E) : Type 0 where
    pub distinct : Distinct (Maps.keys bus.subscribers)
    pub nonempty : (k : E) → Maps.has k bus.subscribers ≡ not (is_nil (subscribers_of bus k))

  add-IsValid :
      (bus : EventBus E) (key : E) (s : Subscriber) → IsValid bus → IsValid (add bus key s)
  unfolding add
  add-IsValid bus key s h = record {
    distinct = Distinct-insert key (subscribers_of bus key ++ s ∷ []) bus.subscribers h.distinct;
    nonempty = λ k.
        rw (lookup-insert key k (subscribers_of bus key ++ s ∷ []) bus.subscribers)
          (ground (arith, is_nil_snoc (subscribers_of bus key) s, h.nonempty k));
  }

  contains-keys-remove_owned :
      (name : String) (m : Map E (List Subscriber)) (k : E)
      → contains (Maps.keys m) k ≡ false
      → contains (Maps.keys (remove_owned name m)) k ≡ false
  unfolding remove_owned
  contains-keys-remove_owned name [] k h = refl
  contains-keys-remove_owned name ((key, subs) ∷ m) k h =
      ground (arith, contains-keys-remove_owned name m k)

  Distinct-remove_owned :
      (name : String) (m : Map E (List Subscriber))
      → Distinct (Maps.keys m)
      → Distinct (Maps.keys (remove_owned name m))
  unfolding remove_owned
  Distinct-remove_owned name [] d = tt
  Distinct-remove_owned name ((key, subs) ∷ m) d =
      ground (arith, contains-keys-remove_owned name m key d.0, Distinct-remove_owned name m d.1)

  -- Subscribe, SubscribeWithOwner and RemoveByService keep the bus valid.
  pub operations-IsValid :
      (bus : EventBus E) (key : E) (name : String) (handler : ℕ)
      → IsValid bus
      → IsValid (subscribe bus key handler)
        × IsValid (subscribe_with_owner bus key name handler)
        × IsValid (remove_by_service bus name)
  unfolding subscribe subscribe_with_owner
  operations-IsValid bus key name handler h = (
    add-IsValid bus key _ h,
    add-IsValid bus key _ h,
    record {
      distinct = unfold remove_by_service in Distinct-remove_owned name bus.subscribers h.distinct;
      nonempty = λ k.
          let (subs, kept) = subscribers-remove_by_service bus name k h.distinct in rw subs kept;
    },
  )
