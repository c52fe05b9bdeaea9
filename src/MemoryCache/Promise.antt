-- ===== src/MemoryCache/Promise.antt =====
-- What the operations of the cache answer, and what clients see after each of them.
use gas.Prelude.{
  ℕ, ◌≤◌, String, string_eq, ◌==◌, ◌≡◌, refl, ap, Bool, true, false, Option, none, some, List,
  if◌then◌else◌, arith, Distinct, Option-cases, Bool-cases, inl, inr,
}
use gas.Maps
use gas.Maps.{Map}
use gas.Maps.Laws.{lookup-insert}
use gas.MemoryCache.{
  Entry, is_expired, Config, Items, Service, closed, key_not_found, Reply, ok, err, read,
  lazy_delete, get, evict_one_expired, put, put_evicted, is_full, exists, remove_expired,
  found_expired,
}
use gas.MemoryCache.View.{
  live, view_items, view, view-lazy_delete_item, view-evict_one_expired, view-remove_expired_items,
}

-- No key twice, as in every Go map.
abbrev pub IsMap : Service → Type 0
IsMap s = elim s.items [ none ↦ Unit | some items ↦ Distinct (Maps.keys items) ]

abbrev pub answer : Option (Option (List ℕ)) → Reply (List ℕ)
answer none = err closed
answer (some none) = err key_not_found
answer (some (some value)) = ok value

read-view : (s : Service) (key : String) (now : ℕ) → read s key now ≡ answer (view s key now)
unfolding read
read-view s key now = elim (Option-cases s.items) [
  | inl shut ↦ rw (shut, read)
  | inr (items, open_) ↦ elim (Option-cases (Maps.lookup key items)) [
    | inl missing ↦ rw (open_, missing, read)
    | inr (e, found) ↦ rw (open_, found, read) (ground (arith, is_expired e now))
  ]
]

view-lazy_delete :
    (open_ : Option Items) (c : Config) (key k : String) (now later : ℕ)
    → now ≤ later
    → view (lazy_delete (record { items = open_; cfg = c }) key now) k later
      ≡ view (record { items = open_; cfg = c }) k later
unfolding lazy_delete
view-lazy_delete none c key k now later h = refl
view-lazy_delete (some items) c key k now later h =
    ap some (view-lazy_delete_item items key k now later h)

-- Get answers the value that is in view: ErrClosed without a map, ErrKeyNotFound for a missing or an
-- expired key. Its lazy delete changes no view at or after the time at which it looks.
pub get-view :
    (s : Service) (key : String) (now later : ℕ)
    → ((get s key now later).0 ≡ answer (view s key now))
      × ((k : String) (t : ℕ) → later ≤ t → view (get s key now later).1 k t ≡ view s k t)
unfolding get
get-view s key now later = (
  read-view s key now,
  λ k t h. elim (Bool-cases (found_expired s key now)) [
    | inl stale ↦ rw (stale, get) (view-lazy_delete s.items s.cfg key k later t h)
    | inr fresh ↦ rw (fresh, get)
  ],
)

-- Exists answers whether Get would answer a value.
pub exists-view :
    (s : Service) (key : String) (now : ℕ)
    → exists s key now
      ≡ (elim (view s key now) [ none ↦ err closed | some v ↦ ok (Maps.is_some v) ])
unfolding exists
exists-view s key now = elim (Option-cases s.items) [
  | inl shut ↦ rw (shut, exists)
  | inr (items, open_) ↦ elim (Option-cases (Maps.lookup key items)) [
    | inl missing ↦ rw (open_, missing, exists)
    | inr (e, found) ↦ rw (open_, found, exists) (ground (arith, is_expired e now))
  ]
]

-- A cleanup at `now` changes no view at `now` or later.
pub remove_expired-view :
    (s : Service) (k : String) (now t : ℕ)
    → IsMap s
    → now ≤ t
    → view (remove_expired s now) k t ≡ view s k t
unfolding remove_expired
remove_expired-view s k now t valid h = go s.items s.cfg valid
  where
    go :
        (open_ : Option Items) (c : Config)
        → IsMap (record { items = open_; cfg = c })
        → view (remove_expired (record { items = open_; cfg = c }) now) k t
          ≡ view (record { items = open_; cfg = c }) k t
    go none c v = refl
    go (some items) c v = ap some (view-remove_expired_items items k now t v h)

pub put_evicted-ok :
    (key : String) (e : Entry) (evicted : Items) (found : Bool) (next : Items)
    → put_evicted key e (found, evicted) ≡ ok next
    → next ≡ Maps.insert key e evicted
put_evicted-ok key e evicted false next h = cc
put_evicted-ok key e evicted true next h = cc

-- After a write the key has the new entry, and every other key is seen as before.
pub put-view :
    (cfg : Config) (key : String) (e : Entry) (now : ℕ) (items next : Items) (k : String) (t : ℕ)
    → Distinct (Maps.keys items)
    → now ≤ t
    → put cfg key e now items ≡ ok next
    → view_items next k t ≡ (if key == k then live t (some e) else view_items items k t)
unfolding put
put-view cfg key e now items next k t d h p = elim (Bool-cases (is_full cfg key items)) [
  | inl full ↦ ground (
    arith,
    full,
    p,
    put_evicted-ok key e (evict_one_expired now items).1 (evict_one_expired now items).0 next,
    lookup-insert key k e (evict_one_expired now items).1,
    view-evict_one_expired items k now t d h,
  )
  | inr room ↦ ground (arith, room, p, lookup-insert key k e items)
]
