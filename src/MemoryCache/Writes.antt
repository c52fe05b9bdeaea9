-- ===== src/MemoryCache/Writes.antt =====
-- Set and Delete: what is seen after them, for how long, and when Set is refused.
use gas.Prelude.{
  ℕ, ◌+◌, ◌≤◌, String, string_eq, ◌==◌, leb, ◌≡◌, ◌≢◌, ◌↔◌, refl, Bool, true, false, not, ◌||◌,
  Option, none, some, List, [], ◌∷◌, if◌then◌else◌, arith, ℤ, pos_part, is_positive, All, length,
  Option-cases, Bool-cases, inl, inr,
}
use gas.Maps
use gas.Maps.Laws.{lookup-delete}
use gas.MemoryCache.{
  Entry, is_expired, Config, Items, Service, CacheError, max_entries_reached, Reply, ok, err,
  first_expired, evict_one_expired, new_entry, ttl_or_default, put, is_full, set, delete, stored,
}
use gas.MemoryCache.View.{live, view_items, view}
use gas.MemoryCache.Promise.{IsMap, put-view}

-- Is a value written at `now` still served at `t`? Forever, unless its duration is positive.
abbrev pub is_served : Config → ℤ → ℕ → ℕ → Bool
is_served cfg ttl now t =
    not (is_positive (ttl_or_default cfg ttl)) || leb t (now + pos_part (ttl_or_default cfg ttl))

live-new_entry :
    (cfg : Config) (value : List ℕ) (ttl : ℤ) (now t : ℕ)
    → live t (some (new_entry value (ttl_or_default cfg ttl) now))
      ≡ (if is_served cfg ttl now t then some value else none)
unfolding new_entry is_expired
live-new_entry cfg value ttl now t = elim (Bool-cases (is_positive (ttl_or_default cfg ttl))) [
  | inl finite ↦ rw (finite, new_entry, is_expired) (ground arith)
  | inr forever ↦ rw (forever, new_entry, is_expired)
]

stored-ok :
    (s : Service) (r : Reply Items) → (stored s r).0 ≡ ok tt → (next : Items) × (r ≡ ok next)
stored-ok s (ok next) h = (next, refl)
stored-ok s (err e) h = cc

stored-err :
    (s : Service) (r : Reply Items) (x : CacheError)
    → (stored s r).0 ≡ err x
    → (r ≡ err x) × ((stored s r).1 ≡ s)
stored-err s (ok next) x h = cc
stored-err s (err e) x h = (cc, refl)

stored-keeps : (s : Service) (r : Reply Items) → (stored s r).0 ≢ ok tt → (stored s r).1 ≡ s
stored-keeps s (ok next) h = ground (arith, h refl)
stored-keeps s (err e) h = refl

-- After a Set that answers no error, its value is in view until its duration (the default one for 0)
-- has passed, forever where that is not positive; every other key is seen as before, at every time
-- not before the Set.
pub set-view :
    (s : Service) (key : String) (value : List ℕ) (ttl : ℤ) (now later : ℕ) (k : String) (t : ℕ)
    → IsMap s
    → later ≤ t
    → (set s key value ttl now later).0 ≡ ok tt
    → view (set s key value ttl now later).1 k t ≡ (
        if key == k
        then some (if is_served s.cfg ttl now t then some value else none)
        else view s k t)
unfolding set
set-view s key value ttl now later k t valid h ok_ = go s.items s.cfg valid ok_
  where
    go :
        (open_ : Option Items) (c : Config)
        → IsMap (record { items = open_; cfg = c })
        → (set (record { items = open_; cfg = c }) key value ttl now later).0 ≡ ok tt
        → view (set (record { items = open_; cfg = c }) key value ttl now later).1 k t ≡ (
            if key == k
            then some (if is_served c ttl now t then some value else none)
            else view (record { items = open_; cfg = c }) k t)
    go none c v g = cc
    go (some items) c v g =
        let (next, e) =
          stored-ok (record { items = some items; cfg = c })
            (put c key (new_entry value (ttl_or_default c ttl) now) later items) g in
        rw (set, e)
          (ground (
            arith,
            put-view c key (new_entry value (ttl_or_default c ttl) now) later items next k t v h e,
            live-new_entry c value ttl now t,
          ))

-- Nothing to evict: no entry has expired.
first_expired_iff :
    (now : ℕ) (items : Items)
    → (first_expired now items ≡ none) ↔ All (λ kv. is_expired kv.1 now ≡ false) items
unfolding first_expired
first_expired_iff now [] = (λ h. tt, λ h. refl)
first_expired_iff now ((k, e) ∷ items) = elim (Bool-cases (is_expired e now)) [
  | inl stale ↦ (λ h. ground (arith, first_expired), λ h. ground arith)
  | inr fresh ↦ (
    λ h. (fresh, (first_expired_iff now items).0 (ground arith)),
    λ h. ground (arith, (first_expired_iff now items).1 h.1),
  )
]

abbrev pub NothingExpired : ℕ → Items → Type 0
NothingExpired now items = All (λ kv. is_expired kv.1 now ≡ false) items

-- A limit is set and reached.
abbrev pub IsFull : Config → Items → Type 0
IsFull cfg items = (is_positive cfg.max_entries ≡ true) × (pos_part cfg.max_entries ≤ length items)

put_refused_iff :
    (cfg : Config) (key : String) (e : Entry) (now : ℕ) (items : Items)
    → (put cfg key e now items ≡ err max_entries_reached)
      ↔ (IsFull cfg items × (Maps.has key items ≡ false) × NothingExpired now items)
unfolding put is_full evict_one_expired
put_refused_iff cfg key e now items = elim (Option-cases (first_expired now items)) [
  | inl none_left ↦ (
    λ h. (ground arith, ground arith, (first_expired_iff now items).0 none_left),
    λ h. ground arith,
  )
  | inr (k, found) ↦ (λ h. ground arith, λ h. ground (arith, (first_expired_iff now items).1 h.2))
]

-- An open service refuses a Set exactly when a limit is set and reached, the key is new, and no entry
-- has expired at the time of the eviction. A Set that answers an error changes nothing.
pub set_refused_iff :
    (cfg : Config) (items : Items) (key : String) (value : List ℕ) (ttl : ℤ) (now later : ℕ)
    → (((set (record { items = some items; cfg = cfg }) key value ttl now later).0
          ≡ err max_entries_reached)
        ↔ (IsFull cfg items × (Maps.has key items ≡ false) × NothingExpired later items))
      × ((set (record { items = some items; cfg = cfg }) key value ttl now later).0 ≢ ok tt
          → (set (record { items = some items; cfg = cfg }) key value ttl now later).1
            ≡ record { items = some items; cfg = cfg })
unfolding set
set_refused_iff cfg items key value ttl now later = (
  (
    λ h.
        (put_refused_iff cfg key (new_entry value (ttl_or_default cfg ttl) now) later items).0
          (stored-err (record { items = some items; cfg = cfg })
            (put cfg key (new_entry value (ttl_or_default cfg ttl) now) later items)
            max_entries_reached h).0,
    λ h. rw (
      set,
      (put_refused_iff cfg key (new_entry value (ttl_or_default cfg ttl) now) later items).1 h,
    ),
  ),
  λ h.
      stored-keeps (record { items = some items; cfg = cfg })
        (put cfg key (new_entry value (ttl_or_default cfg ttl) now) later items) h,
)

-- Delete takes the key out of view, at every time, and no other.
pub delete-view :
    (cfg : Config) (items : Items) (key k : String) (t : ℕ)
    → view (delete (record { items = some items; cfg = cfg }) key).1 k t
      ≡ some (if key == k then none else view_items items k t)
unfolding delete
delete-view cfg items key k t = ground (arith, lookup-delete key k items)
