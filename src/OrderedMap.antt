-- ===== src/OrderedMap.antt =====
-- internal/ordered_map.go: a map that iterates in insertion order, as a Go map beside the list of
-- its keys. `all`, `keys` and `values` are what the iterators yield, in order.
pub mod Refinement
pub mod Reads
pub mod Tests
use gas.Prelude.{
  ℕ, zero, suc, ◌+◌, Eq, ◌==◌, Bool, Option, none, some, List, [], ◌∷◌, ◌++◌, map, if◌then◌else◌,
  length, take, drop,
}
use gas.Maps
use gas.Maps.{Map}

pub record OrderedMap {ℓ κ} (K : Type ℓ) (V : Type κ) : Type (ℓ ⊔ κ) where
  pub m : Map K V
  pub keys : List K

module _ {ℓ} {K : Type ℓ} ⦃e : Eq K⦄ where
  -- slices.Index, where `none` is -1
  unfoldable pub index : List K → K → Option ℕ
  index [] k = none
  index (x ∷ xs) k =
      if x == k then some 0 else elim (index xs k) [ none ↦ none | some i ↦ some (suc i) ]

-- slices.Delete(xs, i, i+1)
unfoldable pub delete_at {ℓ} : {K : Type ℓ} → List K → ℕ → List K
delete_at xs i = take i xs ++ drop (suc i) xs

unfoldable pub delete_key {ℓ} : {K : Type ℓ} → List K → Option ℕ → List K
unfolding delete_at
delete_key keys none = keys
delete_key keys (some i) = delete_at keys i

abbrev pub empty {ℓ κ} : {K : Type ℓ} {V : Type κ} → OrderedMap K V
empty = record { m = []; keys = [] }

module _ {ℓ κ} {K : Type ℓ} {V : Type κ} ⦃e : Eq K⦄ where
  unfoldable pub len : OrderedMap K V → ℕ
  len m = length m.m

  unfoldable pub has : OrderedMap K V → K → Bool
  has m k = Maps.has k m.m

  unfoldable pub get : OrderedMap K V → K → Option V
  get m k = Maps.lookup k m.m

  unfoldable pub set : OrderedMap K V → K → V → OrderedMap K V
  set m k v = record {
    m = Maps.insert k v m.m;
    keys = if Maps.has k m.m then m.keys else m.keys ++ k ∷ [];
  }

  unfoldable pub remove : OrderedMap K V → K → OrderedMap K V
  unfolding index delete_key
  remove m k =
      if Maps.has k m.m
      then record { m = Maps.delete k m.m; keys = delete_key m.keys (index m.keys k) }
      else m

  -- `m[k]` in an expression: the zero value where the key is missing.
  abbrev pub read : V → Map K V → K → V
  read zero_value m k = elim (Maps.lookup k m) [ none ↦ zero_value | some v ↦ v ]

  abbrev pub entries_of : V → Map K V → List K → List (K × V)
  entries_of zero_value m [] = []
  entries_of zero_value m (k ∷ ks) = (k, read zero_value m k) ∷ entries_of zero_value m ks

  unfoldable pub all : V → OrderedMap K V → List (K × V)
  all zero_value m = entries_of zero_value m.m m.keys

  unfoldable pub values : V → OrderedMap K V → List V
  values zero_value m = map (read zero_value m.m) m.keys

  unfoldable pub clone : OrderedMap K V → OrderedMap K V
  clone m = record { m = m.m; keys = m.keys }
