-- ===== src/Maps/Laws.antt =====
-- The laws of maps: what a lookup returns after an update, the keys that are left, the length.
use gas.Prelude.{
  Bool-cases, inl, inr, Distinct-snoc, ◌∙◌, ◌+◌, suc, Eq, ◌==◌, ◌≡◌, refl, false, none, some, [],
  ◌∷◌, ◌++◌, arith, if◌then◌else◌, length, contains, Distinct,
}
use gas.Maps.{Map, lookup, insert, delete, has, keys}

module _ {ℓ κ} {K : Type ℓ} {V : Type κ} ⦃e : Eq K⦄ where
  pub lookup-insert :
      (k j : K) (v : V) (m : Map K V)
      → lookup j (insert k v m) ≡ (if k == j then some v else lookup j m)
  lookup-insert k j v [] = refl
  lookup-insert k j v ((i, w) ∷ m) =
      ground (arith, lookup-insert k j v m, e.eq_iff k j, e.eq_iff i k, e.eq_iff i j)

  pub lookup-delete :
      (k j : K) (m : Map K V) → lookup j (delete k m) ≡ (if k == j then none else lookup j m)
  lookup-delete k j [] = ground arith
  lookup-delete k j ((i, w) ∷ m) =
      ground (arith, lookup-delete k j m, e.eq_iff k j, e.eq_iff i k, e.eq_iff i j)

  pub contains-keys : (k : K) (m : Map K V) → contains (keys m) k ≡ has k m
  contains-keys k [] = refl
  contains-keys k ((j, v) ∷ m) = ground (arith, contains-keys k m)

  pub keys-insert :
      (k : K) (v : V) (m : Map K V)
      → keys (insert k v m) ≡ (if has k m then keys m else keys m ++ k ∷ [])
  keys-insert k v [] = refl
  keys-insert k v ((j, w) ∷ m) = ground (arith, keys-insert k v m, e.eq_iff j k)

  pub length-insert :
      (k : K) (v : V) (m : Map K V)
      → length (insert k v m) ≡ (if has k m then length m else suc (length m))
  length-insert k v [] = refl
  length-insert k v ((j, w) ∷ m) = ground (arith, length-insert k v m)

  pub delete_absent : (k : K) (m : Map K V) → has k m ≡ false → delete k m ≡ m
  delete_absent k [] h = refl
  delete_absent k ((j, v) ∷ m) h = ground (arith, delete_absent k m)

  -- The length falls by one exactly when the key was there.
  pub length-delete :
      (k : K) (m : Map K V)
      → Distinct (keys m)
      → length (delete k m) + (if has k m then 1 else 0) ≡ length m
  length-delete k [] d = omega arith
  length-delete k ((j, v) ∷ m) d = ground (
    arith,
    length-delete k m d.1,
    delete_absent k m,
    contains-keys j m,
    contains-keys k m,
    e.eq_iff j k,
  )

  pub Distinct-insert :
      (k : K) (v : V) (M : Map K V) → Distinct (keys M) → Distinct (keys (insert k v M))
  Distinct-insert k v M d = elim (Bool-cases (has k M)) [
    | inl old ↦ rw (keys-insert k v M, old) d
    | inr new ↦ rw (keys-insert k v M, new) (Distinct-snoc (keys M) k d (contains-keys k M ∙ new))
  ]

  pub contains-keys-delete :
      (k j : K) (M : Map K V) → contains (keys M) j ≡ false → contains (keys (delete k M)) j ≡ false
  contains-keys-delete k j M h =
      ground (arith, contains-keys j (delete k M), contains-keys j M, lookup-delete k j M)

  pub Distinct-delete : (k : K) (M : Map K V) → Distinct (keys M) → Distinct (keys (delete k M))
  Distinct-delete k [] d = tt
  Distinct-delete k ((j, v) ∷ M) d =
      ground (arith, contains-keys-delete k j M, Distinct-delete k M d.1)
