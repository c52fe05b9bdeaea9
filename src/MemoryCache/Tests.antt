-- ===== src/MemoryCache/Tests.antt =====
-- Runs of the cache, and the theorems at a concrete cache.
use gas.Prelude.{ℕ, ◌≤◌, ◌≡◌, ◌↔◌, ◌≢◌, refl, false, none, some, [], ◌∷◌, pos, arith, string_eq}
use gas.Maps
use gas.MemoryCache.{
  Config, Items, Service, max_entries_reached, ok, err, is_expired, read, get, first_expired,
  evict_one_expired, new_entry, put, is_full, set, remove_expired,
}
use gas.MemoryCache.View.{view}
use gas.MemoryCache.Promise.{answer, get-view}
use gas.MemoryCache.Writes.{IsFull, NothingExpired, set-view, set_refused_iff}
use gas.MemoryCache.Bounds.{
  start, then_, section-set, section-remove_expired, IsBounded, Sections-IsBounded,
}

abbrev cfg : Config
cfg = record { default_ttl = pos 10; max_entries = pos 2 }

-- "a" is served until 10, "b" forever.
abbrev two_items : Items
two_items =
    ("a", record { expires_at = some 10; value = 1 ∷ [] })
    ∷ ("b", record { expires_at = none; value = 2 ∷ [] })
    ∷ []

abbrev opened : Service
opened = record { items = some two_items; cfg = cfg }

get_expired : (get opened "a" 11 12).0 ≡ answer (some none)
unfolding get read is_expired
get_expired = refl

set_evicts : (set opened "c" (3 ∷ []) (pos 0) 11 12).0 ≡ ok tt
unfolding set put is_full evict_one_expired first_expired is_expired new_entry
set_evicts = refl

set_at_limit : (set opened "c" (3 ∷ []) (pos 0) 5 6).0 ≡ err max_entries_reached
unfolding set put is_full evict_one_expired first_expired is_expired new_entry
set_at_limit = refl

get-view_example :
    ((get opened "a" 11 12).0 ≡ answer (view opened "a" 11))
    × ((k : _) (t : ℕ) → 12 ≤ t → view (get opened "a" 11 12).1 k t ≡ view opened k t)
get-view_example = get-view opened "a" 11 12

set-view_example : view (set opened "c" (3 ∷ []) (pos 0) 11 12).1 "c" 21 ≡ some (some (3 ∷ []))
set-view_example =
    set-view opened "c" (3 ∷ []) (pos 0) 11 12 "c" 21 (refl, (refl, tt)) (omega arith) set_evicts

set_refused_iff_example :
    (((set opened "c" (3 ∷ []) (pos 0) 5 6).0 ≡ err max_entries_reached)
      ↔ (IsFull cfg two_items × (Maps.has "c" two_items ≡ false) × NothingExpired 6 two_items))
    × ((set opened "c" (3 ∷ []) (pos 0) 5 6).0 ≢ ok tt
        → (set opened "c" (3 ∷ []) (pos 0) 5 6).1 ≡ opened)
set_refused_iff_example = set_refused_iff cfg two_items "c" (3 ∷ []) (pos 0) 5 6

Sections-IsBounded_example : IsBounded (remove_expired (set opened "c" (3 ∷ []) (pos 0) 11 12).1 30)
Sections-IsBounded_example =
    Sections-IsBounded opened (remove_expired (set opened "c" (3 ∷ []) (pos 0) 11 12).1 30)
      ((refl, (refl, tt)), λ h. omega arith)
      (then_ opened (set opened "c" (3 ∷ []) (pos 0) 11 12).1
        (remove_expired (set opened "c" (3 ∷ []) (pos 0) 11 12).1 30)
        (then_ opened opened (set opened "c" (3 ∷ []) (pos 0) 11 12).1 (start opened)
          (section-set opened "c" (3 ∷ []) (pos 0) 11 12))
        (section-remove_expired (set opened "c" (3 ∷ []) (pos 0) 11 12).1 30))
