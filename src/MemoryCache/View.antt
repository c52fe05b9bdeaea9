-- ===== src/MemoryCache/View.antt =====
-- What a client sees of the cache: the values that have not expired. Eviction and cleanup change
-- nothing of it.
use gas.Prelude.{
  ℕ, ◌≤◌, String, string_eq, ◌≡◌, refl, true, Option, none, some, List, [], ◌∷◌, if◌then◌else◌,
  arith, Distinct, Option-cases, inl, inr,
}
use gas.Maps
use gas.Maps.Laws.{lookup-delete, contains-keys}
use gas.MemoryCache.{
  Entry, is_expired, Items, Service, lazy_delete_item, first_expired, evict_one_expired,
  remove_expired_items,
}

abbrev pub live : ℕ → Option Entry → Option (List ℕ)
live now none = none
live now (some e) = if is_expired e now then none else some e.value

-- The value of a key at a time.
abbrev pub view_items : Items → String → ℕ → Option (List ℕ)
view_items items key now = live now (Maps.lookup key items)

-- `none` for a service that is not open.
abbrev pub view : Service → String → ℕ → Option (Option (List ℕ))
view s key now = elim s.items [ none ↦ none | some items ↦ some (view_items items key now) ]

-- What has expired stays expired.
pub is_expired_mono :
    (e : Entry) (now later : ℕ) → now ≤ later → is_expired e now ≡ true → is_expired e later ≡ true
unfolding is_expired
is_expired_mono e now later h x = ground arith

pub view-lazy_delete_item :
    (items : Items) (key k : String) (now later : ℕ)
    → now ≤ later
    → view_items (lazy_delete_item key now items) k later ≡ view_items items k later
unfolding lazy_delete_item
view-lazy_delete_item items key k now later h = elim (Option-cases (Maps.lookup key items)) [
  | inl missing ↦ rw (missing, lazy_delete_item)
  | inr (e, found) ↦
      ground (
        arith,
        found,
        lookup-delete key k items,
        string_eq.eq_iff key k,
        is_expired_mono e now later,
      )
]

pub first_expired-has :
    (now : ℕ) (items : Items) (k : String)
    → first_expired now items ≡ some k
    → Maps.has k items ≡ true
unfolding first_expired
first_expired-has now [] k h = cc
first_expired-has now ((j, x) ∷ items) k h =
    ground (arith, first_expired-has now items k, string_eq.eq_iff j k)

lookup-evict :
    (items : Items) (k : String) (now : ℕ) (e : Entry)
    → Distinct (Maps.keys items)
    → first_expired now items ≡ some k
    → Maps.lookup k items ≡ some e
    → is_expired e now ≡ true
unfolding first_expired
lookup-evict [] k now e d h f = cc
lookup-evict ((j, x) ∷ items) k now e d h f = ground (
  arith,
  lookup-evict items k now e d.1,
  contains-keys j items,
  string_eq.eq_iff j k,
  d.0,
  first_expired-has now items k,
)

-- At a time not before the eviction nobody sees a difference.
pub view-evict_one_expired :
    (items : Items) (k : String) (now later : ℕ)
    → Distinct (Maps.keys items)
    → now ≤ later
    → view_items (evict_one_expired now items).1 k later ≡ view_items items k later
unfolding evict_one_expired
view-evict_one_expired items k now later d h = elim (Option-cases (first_expired now items)) [
  | inl nothing ↦ rw (nothing, evict_one_expired)
  | inr (j, found) ↦ elim (Option-cases (Maps.lookup j items)) [
    | inl missing ↦
        rw (found, evict_one_expired)
          (ground (arith, lookup-delete j k items, string_eq.eq_iff j k))
    | inr (e, there) ↦
        rw (found, evict_one_expired)
          (ground (
            arith,
            lookup-delete j k items,
            string_eq.eq_iff j k,
            lookup-evict items j now e d found there,
            is_expired_mono e now later,
          ))
  ]
]

pub view-remove_expired_items :
    (items : Items) (k : String) (now later : ℕ)
    → Distinct (Maps.keys items)
    → now ≤ later
    → view_items (remove_expired_items now items) k later ≡ view_items items k later
unfolding remove_expired_items
view-remove_expired_items [] k now later d h = refl
view-remove_expired_items ((j, e) ∷ items) k now later d h = ground (
  arith,
  view-remove_expired_items items k now later d.1 h,
  is_expired_mono e now later,
  contains-keys j items,
  string_eq.eq_iff j k,
  d.0,
)
