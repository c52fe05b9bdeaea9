-- ===== src/OrderedMap/Reads.antt =====
-- What Get and Has return after Set, and the keys of the iterated entries.
use gas.Prelude.{Eq, ◌==◌, ◌≡◌, refl, ap, some, List, [], ◌∷◌, ◌||◌, arith, if◌then◌else◌, Distinct}
use gas.Maps
use gas.Maps.{Map}
use gas.Maps.Laws.{lookup-insert}
use gas.OrderedMap.{OrderedMap, get, has, set, all, entries_of}
use gas.OrderedMap.Refinement.{IsValid}

module _ {ℓ κ} {K : Type ℓ} {V : Type κ} ⦃e : Eq K⦄ where
  pub get-set :
      (m : OrderedMap K V) (k j : K) (v : V)
      → get (set m k v) j ≡ (if k == j then some v else get m j)
  unfolding get set
  get-set m k j v = lookup-insert k j v m.m

  pub has-set : (m : OrderedMap K V) (k j : K) (v : V) → has (set m k v) j ≡ (k == j || has m j)
  unfolding has set
  has-set m k j v = ground (arith, lookup-insert k j v m.m)

  keys-entries : (z : V) (M : Map K V) (ks : List K) → Maps.keys (entries_of z M ks) ≡ ks
  keys-entries z M [] = refl
  keys-entries z M (k ∷ ks) = ap (λ l. k ∷ l) (keys-entries z M ks)

  pub keys-all : (z : V) (m : OrderedMap K V) → Maps.keys (all z m) ≡ m.keys
  unfolding all
  keys-all z m = keys-entries z m.m m.keys

  pub Distinct-all : (z : V) (m : OrderedMap K V) → IsValid m → Distinct (Maps.keys (all z m))
  Distinct-all z m h = rw (keys-all z m) h.once

  pub has-get : (m : OrderedMap K V) (k : K) → has m k ≡ Maps.is_some (get m k)
  unfolding has get
  has-get m k = refl
