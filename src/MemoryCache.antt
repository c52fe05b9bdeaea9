-- ===== src/MemoryCache.antt =====
-- cache/memory/service.go: the in-memory cache with expiry. A time is a number, and each call of
-- time.Now() is an argument. The map's list is in the order of Go's iteration, whichever it is.
pub mod View
pub mod Promise
pub mod Writes
pub mod Bounds
pub mod Tests
use gas.Prelude.{
  ℕ, ◌+◌, String, string_eq, ◌==◌, ltb, leb, Bool, true, false, not, ◌&&◌, ◌||◌, Option, none, some,
  List, [], ◌∷◌, if◌then◌else◌, length, ℤ, pos_part, is_positive, is_zero,
}
use gas.Maps
use gas.Maps.{Map}

-- A missing `expires_at` is the zero time.
pub record Entry : Type 0 where
  pub expires_at : Option ℕ
  pub value : List ℕ

unfoldable pub is_expired : Entry → ℕ → Bool
is_expired e now = elim e.expires_at [ none ↦ false | some t ↦ ltb t now ]

pub record Config : Type 0 where
  pub default_ttl : ℤ
  pub max_entries : ℤ

abbrev pub Items : Type 0
Items = Map String Entry

-- `none` is the nil map of a service that is not open.
pub record Service : Type 0 where
  pub items : Option Items
  pub cfg : Config

pub data CacheError : Type 0 where
  closed key_not_found max_entries_reached : CacheError

pub data Reply (A : Type 0) : Type 0 where
  ok : A → Reply A
  err : CacheError → Reply A

unfoldable pub init : Service → Service
init s = record s { items = some [] }

unfoldable pub close : Service → Service
close s = record s { items = none }

-- Get up to its read lock's release, with the time at which it then checks the entry.
unfoldable pub read : Service → String → ℕ → Reply (List ℕ)
unfolding is_expired
read s key now = elim s.items [
  | none ↦ err closed
  | some items ↦ elim (Maps.lookup key items) [
    | none ↦ err key_not_found
    | some e ↦ if is_expired e now then err key_not_found else ok e.value
  ]
]

-- The lazy delete of Get, under the write lock: other goroutines may have run since the read.
unfoldable pub lazy_delete_item : String → ℕ → Items → Items
unfolding is_expired
lazy_delete_item key now items = elim (Maps.lookup key items) [
  | none ↦ items
  | some e ↦ if is_expired e now then Maps.delete key items else items
]

unfoldable pub lazy_delete : Service → String → ℕ → Service
unfolding lazy_delete_item
lazy_delete s key now = elim s.items [
  | none ↦ s
  | some items ↦ record s { items = some (lazy_delete_item key now items) }
]

-- Did the read find an entry, but an expired one?
unfoldable pub found_expired : Service → String → ℕ → Bool
unfolding is_expired
found_expired s key now = elim s.items [
  | none ↦ false
  | some items ↦ elim (Maps.lookup key items) [ none ↦ false | some e ↦ is_expired e now ]
]

-- Get where nothing runs between its two locks.
unfoldable pub get : Service → String → ℕ → ℕ → Reply (List ℕ) × Service
unfolding read lazy_delete found_expired
get s key now later =
    (read s key now, if found_expired s key now then lazy_delete s key later else s)

-- The range of evictOneExpired up to its first deletion.
unfoldable pub first_expired : ℕ → Items → Option String
unfolding is_expired
first_expired now [] = none
first_expired now ((k, e) ∷ items) = if is_expired e now then some k else first_expired now items

unfoldable pub evict_one_expired : ℕ → Items → Bool × Items
unfolding first_expired
evict_one_expired now items = elim (first_expired now items) [
  | none ↦ (false, items)
  | some k ↦ (true, Maps.delete k items)
]

-- `if ttl > 0 { e.expiresAt = time.Now().Add(ttl) }`
unfoldable pub new_entry : List ℕ → ℤ → ℕ → Entry
new_entry value ttl now = record {
  expires_at = if is_positive ttl then some (now + pos_part ttl) else none;
  value = value;
}

abbrev pub ttl_or_default : Config → ℤ → ℤ
ttl_or_default cfg ttl = if is_zero ttl then cfg.default_ttl else ttl

-- The limit of `max_entries` binds a new key.
unfoldable pub is_full : Config → String → Items → Bool
is_full cfg key items =
    is_positive cfg.max_entries
    && (not (Maps.has key items) && leb (pos_part cfg.max_entries) (length items))

abbrev pub put_evicted : String → Entry → Bool × Items → Reply Items
put_evicted key e (false, evicted) = err max_entries_reached
put_evicted key e (true, evicted) = ok (Maps.insert key e evicted)

unfoldable pub put : Config → String → Entry → ℕ → Items → Reply Items
unfolding is_full evict_one_expired
put cfg key e now items =
    if is_full cfg key items
    then put_evicted key e (evict_one_expired now items)
    else ok (Maps.insert key e items)

abbrev pub stored : Service → Reply Items → Reply (Unit {0}) × Service
stored s (ok items) = (ok tt, record s { items = some items })
stored s (err e) = (err e, s)

-- `later` is the time at which evictOneExpired looks.
unfoldable pub set : Service → String → List ℕ → ℤ → ℕ → ℕ → Reply (Unit {0}) × Service
unfolding put new_entry
set s key value ttl now later = elim s.items [
  | none ↦ (err closed, s)
  | some items ↦
      stored s (put s.cfg key (new_entry value (ttl_or_default s.cfg ttl) now) later items)
]

unfoldable pub delete : Service → String → Reply (Unit {0}) × Service
delete s key = elim s.items [
  | none ↦ (err closed, s)
  | some items ↦ (ok tt, record s { items = some (Maps.delete key items) })
]

unfoldable pub exists : Service → String → ℕ → Reply Bool
unfolding is_expired
exists s key now = elim s.items [
  | none ↦ err closed
  | some items ↦ elim (Maps.lookup key items) [
    | none ↦ ok false
    | some e ↦ ok (not (is_expired e now))
  ]
]

unfoldable pub remove_expired_items : ℕ → Items → Items
unfolding is_expired
remove_expired_items now [] = []
remove_expired_items now ((k, e) ∷ items) =
    let rest = remove_expired_items now items in if is_expired e now then rest else (k, e) ∷ rest

-- The tick of the cleanup goroutine.
unfoldable pub remove_expired : Service → ℕ → Service
unfolding remove_expired_items
remove_expired s now = elim s.items [
  | none ↦ s
  | some items ↦ record s { items = some (remove_expired_items now items) }
]
