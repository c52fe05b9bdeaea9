-- ===== src/MemoryCache/Bounds.antt =====
-- The service's lock sections in any order, and the limit on the entries.
use gas.Prelude.{
  ℕ, ◌+◌, ◌≤◌, suc, String, string_eq, ◌≡◌, refl, sym, subst, true, false, Option, none, some, List,
  [], ◌∷◌, if◌then◌else◌, arith, ℤ, pos_part, is_positive, contains, Distinct, length, Option-cases,
  Bool-cases, inl, inr,
}
use gas.Maps
use gas.Maps.Laws.{Distinct-insert, Distinct-delete, length-insert, length-delete}
use gas.MemoryCache.{
  Entry, is_expired, Config, Items, Service, Reply, ok, err, first_expired, evict_one_expired,
  new_entry, init, close, lazy_delete, lazy_delete_item, remove_expired, remove_expired_items,
  ttl_or_default, put, is_full, set, delete, stored,
}
use gas.MemoryCache.View.{first_expired-has}
use gas.MemoryCache.Promise.{put_evicted-ok}

-- What one goroutine does to the service while it holds the lock.
pub data Section : Service → Service → Type 0 where
  section-init : (s : Service) → Section s (init s)
  section-close : (s : Service) → Section s (close s)
  section-lazy_delete : (s : Service) (key : String) (now : ℕ) → Section s (lazy_delete s key now)
  section-set :
      (s : Service) (key : String) (value : List ℕ) (ttl : ℤ) (now later : ℕ)
      → Section s (set s key value ttl now later).1
  section-delete : (s : Service) (key : String) → Section s (delete s key).1
  section-remove_expired : (s : Service) (now : ℕ) → Section s (remove_expired s now)

-- Sections of any goroutines, one after the other.
pub data Sections : Service → Service → Type 0 where
  start : (s : Service) → Sections s s
  then_ : (s u v : Service) → Sections s u → Section u v → Sections s v

-- No key twice, and no more entries than a limit allows.
abbrev pub Fits : Config → Items → Type 0
Fits cfg items =
    Distinct (Maps.keys items)
    × (is_positive cfg.max_entries ≡ true → length items ≤ pos_part cfg.max_entries)

abbrev pub IsBounded : Service → Type 0
IsBounded s = elim s.items [ none ↦ Unit | some items ↦ Fits s.cfg items ]

length-delete_le :
    (k : String) (m : Items) → Distinct (Maps.keys m) → length (Maps.delete k m) ≤ length m
length-delete_le k m d = omega (arith, length-delete k m d)

Fits-delete :
    (c : Config) (key : String) (items : Items) → Fits c items → Fits c (Maps.delete key items)
Fits-delete c key items f =
    (Distinct-delete key items f.0, λ h. omega (arith, length-delete_le key items f.0, f.1 h))

Fits-lazy_delete_item :
    (c : Config) (key : String) (now : ℕ) (items : Items)
    → Fits c items
    → Fits c (lazy_delete_item key now items)
unfolding lazy_delete_item
Fits-lazy_delete_item c key now items f = elim (Option-cases (Maps.lookup key items)) [
  | inl missing ↦ rw (missing, lazy_delete_item) f
  | inr (e, found) ↦ elim (Bool-cases (is_expired e now)) [
    | inl stale ↦ rw (found, stale, lazy_delete_item) (Fits-delete c key items f)
    | inr fresh ↦ rw (found, fresh, lazy_delete_item) f
  ]
]

contains-remove_expired_items :
    (now : ℕ) (j : String) (items : Items)
    → contains (Maps.keys items) j ≡ false
    → contains (Maps.keys (remove_expired_items now items)) j ≡ false
unfolding remove_expired_items
contains-remove_expired_items now j [] h = refl
contains-remove_expired_items now j ((k, e) ∷ items) h =
    ground (arith, contains-remove_expired_items now j items)

Distinct-remove_expired_items :
    (now : ℕ) (items : Items)
    → Distinct (Maps.keys items)
    → Distinct (Maps.keys (remove_expired_items now items))
unfolding remove_expired_items
Distinct-remove_expired_items now [] d = tt
Distinct-remove_expired_items now ((k, e) ∷ items) d = elim (Bool-cases (is_expired e now)) [
  | inl stale ↦ rw (stale, remove_expired_items) (Distinct-remove_expired_items now items d.1)
  | inr fresh ↦
      rw (fresh, remove_expired_items)
        (contains-remove_expired_items now k items d.0, Distinct-remove_expired_items now items d.1)
]

length-remove_expired_items :
    (now : ℕ) (items : Items) → length (remove_expired_items now items) ≤ length items
unfolding remove_expired_items
length-remove_expired_items now [] = omega arith
length-remove_expired_items now ((k, e) ∷ items) =
    ground (arith, length-remove_expired_items now items)

-- An eviction makes room for one more.
length-evict :
    (now : ℕ) (items : Items) (k : String)
    → Distinct (Maps.keys items)
    → first_expired now items ≡ some k
    → suc (length (Maps.delete k items)) ≤ length items
length-evict now items k d h =
    ground (arith, length-delete k items d, first_expired-has now items k h)

Fits-insert :
    (c : Config) (key : String) (e : Entry) (items : Items)
    → Distinct (Maps.keys items)
    → (is_positive c.max_entries ≡ true
        → length items + (if Maps.has key items then 0 else 1) ≤ pos_part c.max_entries)
    → Fits c (Maps.insert key e items)
Fits-insert c key e items d room =
    (Distinct-insert key e items d, λ h. ground (arith, length-insert key e items, room h))

Fits-put :
    (c : Config) (key : String) (e : Entry) (now : ℕ) (items next : Items)
    → Fits c items
    → put c key e now items ≡ ok next
    → Fits c next
unfolding put is_full evict_one_expired
Fits-put c key e now items next f p = elim (Bool-cases (is_full c key items)) [
  | inl full ↦ elim (Option-cases (first_expired now items)) [
    | inl nothing ↦ ground arith
    | inr (k, found) ↦
        subst (Fits c) (sym (put_evicted-ok key e (Maps.delete k items) true next (ground arith))) (
          Fits-insert c key e (Maps.delete k items) (Distinct-delete k items f.0)
            (λ h. ground (arith, f.1 h, length-evict now items k f.0 found)))
  ]
  | inr room ↦
      subst (Fits c) {x = Maps.insert key e items} (ground arith)
        (Fits-insert c key e items f.0 (λ h. ground (arith, f.1 h)))
]

IsBounded-Section : (s t : Service) → IsBounded s → Section s t → IsBounded t
unfolding init close lazy_delete set delete remove_expired
IsBounded-Section s t b (section-init _) = (tt, λ h. omega arith)
IsBounded-Section s t b (section-close _) = tt
IsBounded-Section s t b (section-lazy_delete _ key now) = by_items s.items s.cfg b
  where
    by_items :
        (open_ : Option Items) (c : Config)
        → IsBounded (record { items = open_; cfg = c })
        → IsBounded (lazy_delete (record { items = open_; cfg = c }) key now)
    by_items none c v = tt
    by_items (some items) c v = Fits-lazy_delete_item c key now items v
IsBounded-Section s t b (section-set _ key value ttl now later) = by_items s.items s.cfg b
  where
    by_reply :
        (c : Config) (items : Items) (r : Reply Items)
        → put c key (new_entry value (ttl_or_default c ttl) now) later items ≡ r
        → Fits c items
        → IsBounded (stored (record { items = some items; cfg = c }) r).1
    by_reply c items (ok next) e f =
        Fits-put c key (new_entry value (ttl_or_default c ttl) now) later items next f e
    by_reply c items (err x) e f = f

    by_items :
        (open_ : Option Items) (c : Config)
        → IsBounded (record { items = open_; cfg = c })
        → IsBounded (set (record { items = open_; cfg = c }) key value ttl now later).1
    by_items none c v = tt
    by_items (some items) c v =
        by_reply c items (put c key (new_entry value (ttl_or_default c ttl) now) later items) refl v
IsBounded-Section s t b (section-delete _ key) = by_items s.items s.cfg b
  where
    by_items :
        (open_ : Option Items) (c : Config)
        → IsBounded (record { items = open_; cfg = c })
        → IsBounded (delete (record { items = open_; cfg = c }) key).1
    by_items none c v = tt
    by_items (some items) c v = Fits-delete c key items v
IsBounded-Section s t b (section-remove_expired _ now) = by_items s.items s.cfg b
  where
    by_items :
        (open_ : Option Items) (c : Config)
        → IsBounded (record { items = open_; cfg = c })
        → IsBounded (remove_expired (record { items = open_; cfg = c }) now)
    by_items none c v = tt
    by_items (some items) c v = (
      Distinct-remove_expired_items now items v.0,
      λ h. omega (arith, length-remove_expired_items now items, v.1 h),
    )

-- Whatever lock sections of Init, Close, Get, Set, Delete and the cleanup run, and in whichever order,
-- no key is there twice, and a limit that is set is not exceeded.
pub Sections-IsBounded : (s t : Service) → IsBounded s → Sections s t → IsBounded t
Sections-IsBounded s t b (start _) = b
Sections-IsBounded s t b (then_ _ u _ before now) =
    IsBounded-Section u t (Sections-IsBounded s u b before) now
