-- ===== src/OrderedMap/Refinement.antt =====
-- An ordered map is the association list that it iterates over: its operations are those of the
-- list, and the keys never disagree with the entries.
use gas.Prelude.{
  erase, contains-erase, Distinct-erase, length-erase, Eq, ◌==◌, ◌≡◌, refl, sym, ◌∙◌, true, false,
  Bool-cases, none, List, [], ◌∷◌, ◌++◌, inl, inr, arith, if◌then◌else◌, length, length-append,
  contains, contains-append, Distinct, Distinct-snoc, All, All-contains, ap,
}
use gas.Maps
use gas.Maps.{Map}
use gas.Maps.Laws.{
  Distinct-insert, Distinct-delete, lookup-insert, lookup-delete, length-insert, length-delete,
  delete_absent,
}
use gas.OrderedMap.{
  OrderedMap, index, delete_key, len, has, get, set, remove, read, entries_of, all, empty,
}

module _ {ℓ} {K : Type ℓ} ⦃e : Eq K⦄ where
  delete_key-index : (ks : List K) (k : K) → delete_key ks (index ks k) ≡ erase k ks
  unfolding delete_key index
  delete_key-index [] k = refl
  delete_key-index (x ∷ xs) k = ground (arith, delete_key-index xs k)

module _ {ℓ κ} {K : Type ℓ} {V : Type κ} ⦃e : Eq K⦄ where
  -- The invariant: the list holds each key of the map once, and no other.
  pub record IsValid (m : OrderedMap K V) : Type ℓ where
    pub once : Distinct m.keys
    pub distinct : Distinct (Maps.keys m.m)
    pub same : (k : K) → contains m.keys k ≡ Maps.has k m.m
    pub counted : length m.keys ≡ length m.m

  read-insert :
      (z : V) (k j : K) (v : V) (M : Map K V)
      → read z (Maps.insert k v M) j ≡ (if k == j then v else read z M j)
  read-insert z k j v M = ground (arith, lookup-insert k j v M)

  read-delete :
      (z : V) (k j : K) (M : Map K V) → (k == j) ≡ false → read z (Maps.delete k M) j ≡ read z M j
  read-delete z k j M h = ground (arith, lookup-delete k j M)

  entries-insert_absent :
      (z : V) (k : K) (v : V) (M : Map K V) (ks : List K)
      → contains ks k ≡ false
      → entries_of z (Maps.insert k v M) ks ≡ entries_of z M ks
  entries-insert_absent z k v M [] h = refl
  entries-insert_absent z k v M (x ∷ xs) h =
      ground
        (arith, read-insert z k x v M, entries-insert_absent z k v M xs, e.eq_iff x k, e.eq_iff k x)

  entries-insert :
      (z : V) (k : K) (v : V) (M : Map K V) (ks : List K)
      → Distinct ks
      → entries_of z (Maps.insert k v M) (if contains ks k then ks else ks ++ k ∷ [])
        ≡ Maps.insert k v (entries_of z M ks)
  entries-insert z k v M [] d = ground (arith, read-insert z k k v M, e.eq_iff k k)
  entries-insert z k v M (x ∷ xs) d = ground (
    arith,
    read-insert z k x v M,
    entries-insert_absent z k v M xs,
    entries-insert z k v M xs d.1,
    e.eq_iff x k,
    e.eq_iff k x,
  )

  entries-delete_absent :
      (z : V) (k : K) (M : Map K V) (ks : List K)
      → contains ks k ≡ false
      → entries_of z (Maps.delete k M) ks ≡ Maps.delete k (entries_of z M ks)
  entries-delete_absent z k M [] h = refl
  entries-delete_absent z k M (x ∷ xs) h =
      ground
        (arith, read-delete z k x M, entries-delete_absent z k M xs, e.eq_iff x k, e.eq_iff k x)

  entries-delete :
      (z : V) (k : K) (M : Map K V) (ks : List K)
      → Distinct ks
      → entries_of z (Maps.delete k M) (erase k ks) ≡ Maps.delete k (entries_of z M ks)
  entries-delete z k M [] d = refl
  entries-delete z k M (x ∷ xs) d = ground (
    arith,
    read-delete z k x M,
    entries-delete_absent z k M xs,
    entries-delete z k M xs d.1,
    e.eq_iff x k,
    e.eq_iff k x,
  )

  lookup-entries :
      (z : V) (k : K) (M : Map K V) (ks : List K)
      → All (λ x. Maps.has x M ≡ true) ks
      → Maps.lookup k (entries_of z M ks) ≡ (if contains ks k then Maps.lookup k M else none)
  lookup-entries z k M [] h = refl
  lookup-entries z k M (x ∷ xs) h = ground (arith, lookup-entries z k M xs h.1, h.0, e.eq_iff x k)

  length-entries : (z : V) (M : Map K V) (ks : List K) → length (entries_of z M ks) ≡ length ks
  length-entries z M [] = refl
  length-entries z M (x ∷ xs) = omega (arith, length-entries z M xs)

  lookup_all :
      (z : V) (m : OrderedMap K V) (k : K)
      → IsValid m
      → Maps.lookup k (entries_of z m.m m.keys) ≡ Maps.lookup k m.m
  lookup_all z m k h =
      lookup-entries z k m.m m.keys (All-contains _ m.keys (λ x c. sym (h.same x) ∙ c))
      ∙ ground (arith, h.same k)

  absent_entry :
      (z : V) (m : OrderedMap K V) (k : K)
      → IsValid m
      → Maps.has k m.m ≡ false
      → Maps.has k (entries_of z m.m m.keys) ≡ false
  absent_entry z m k h new = rw (lookup_all z m k h) new

  pub empty-IsValid : IsValid (empty {K = K} {V = V})
  empty-IsValid = record { once = tt; distinct = tt; same = λ k. refl; counted = refl }

  -- Set keeps the invariant.
  pub set-IsValid : (m : OrderedMap K V) (k : K) (v : V) → IsValid m → IsValid (set m k v)
  unfolding set
  set-IsValid m k v h = record {
    once = elim (Bool-cases (Maps.has k m.m)) [
      | inl old ↦ rw old h.once
      | inr new ↦ rw new (Distinct-snoc m.keys k h.once (h.same k ∙ new))
    ];
    distinct = Distinct-insert k v m.m h.distinct;
    same = λ j.
        ground (
          arith,
          h.same j,
          lookup-insert k j v m.m,
          contains-append m.keys (k ∷ []) j,
          e.eq_iff k j,
        );
    counted = ground (arith, h.counted, length-insert k v m.m, length-append m.keys (k ∷ []));
  }

  -- Remove keeps the invariant.
  pub remove-IsValid : (m : OrderedMap K V) (k : K) → IsValid m → IsValid (remove m k)
  unfolding remove
  remove-IsValid m k h = elim (Bool-cases (Maps.has k m.m)) [
    | inr new ↦ rw new h
    | inl old ↦
        rw (old, delete_key-index m.keys k)
          (record {
            once = Distinct-erase m.keys k h.once;
            distinct = Distinct-delete k m.m h.distinct;
            same = λ j. ground (
              arith,
              h.same j,
              h.same k,
              lookup-delete k j m.m,
              contains-erase m.keys k j h.once,
              e.eq_iff k j,
            );
            counted =
                ground (
                  arith,
                  h.counted,
                  h.same k,
                  length-erase m.keys k,
                  length-delete k m.m h.distinct,
                );
          })
  ]

  -- On a valid map, Set iterates as the old entries with the value replaced in place, or with a
  -- new key's entry at the end.
  pub all-set :
      (z : V) (m : OrderedMap K V) (k : K) (v : V)
      → IsValid m
      → all z (set m k v) ≡ Maps.insert k v (all z m)
  unfolding set all
  all-set z m k v h = rw (← h.same k) (entries-insert z k v m.m m.keys h.once)

  -- On a valid map, Remove takes the key's entry out of the iteration and keeps the order of the
  -- others; an absent key changes nothing.
  pub all-remove :
      (z : V) (m : OrderedMap K V) (k : K)
      → IsValid m
      → (all z (remove m k) ≡ Maps.delete k (all z m)) × (Maps.has k m.m ≡ false → remove m k ≡ m)
  unfolding remove all
  all-remove z m k h = (
    elim (Bool-cases (Maps.has k m.m)) [
      | inl old ↦ rw (old, delete_key-index m.keys k) (entries-delete z k m.m m.keys h.once)
      | inr new ↦
          rw new (sym (delete_absent k (entries_of z m.m m.keys) (absent_entry z m k h new)))
    ],
    λ new. rw new,
  )

  -- On a valid map, Get, Has and Len answer as the iterated entries do.
  pub get-all :
      (z : V) (m : OrderedMap K V) (k : K)
      → IsValid m
      → (get m k ≡ Maps.lookup k (all z m))
        × (has m k ≡ Maps.has k (all z m))
        × (len m ≡ length (all z m))
  unfolding get has len all
  get-all z m k h = (
    sym (lookup_all z m k h),
    sym (ap Maps.is_some (lookup_all z m k h)),
    omega (arith, h.counted, length-entries z m.m m.keys),
  )

  -- On a valid map the entries that All yields tell all of it: Set replaces a key's entry in place or
  -- appends one, Remove takes the entry out and keeps the order of the others, and Get, Has and Len
  -- answer as the entries do.
  pub operations-all :
      (z : V) (m : OrderedMap K V) (k : K) (v : V)
      → IsValid m
      → (all z (set m k v) ≡ Maps.insert k v (all z m))
        × (all z (remove m k) ≡ Maps.delete k (all z m))
        × (get m k ≡ Maps.lookup k (all z m))
        × (has m k ≡ Maps.has k (all z m))
        × (len m ≡ length (all z m))
  operations-all z m k v h =
      let (got, has_it, counted) = get-all z m k h in
      (all-set z m k v h, (all-remove z m k h).0, got, has_it, counted)
