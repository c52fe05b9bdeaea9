-- ===== src/Prelude/Sorting.antt =====
-- Sorting by a key, and lists whose keys ascend without repetition: such a list is determined by
-- what it holds under each key.
use mathlib.Core.Path.{◌≡◌, refl, sym, ◌∙◌, subst}
use mathlib.Core.Logic.{inl, inr}
use mathlib.Core.Bool.{true, false}
use mathlib.Core.Option.{Option, none, some}
use mathlib.Core.List.{List, [], ◌∷◌}
use native.Mathlib.Omega.{arith}
use gas.Prelude.Tests.{Eq, ◌==◌, if◌then◌else◌, beq_refl, Bool-cases}
use gas.Prelude.Order.{Order}

module _ {ℓ κ} {A : Type ℓ} {K : Type κ} ⦃e : Eq K⦄ ⦃o : Order K⦄ (key : A → K) where
  -- The first element with the key
  abbrev pub find_by : K → List A → Option A
  find_by k [] = none
  find_by k (x ∷ xs) = if key x == k then some x else find_by k xs

  abbrev pub insert_by : A → List A → List A
  insert_by x [] = x ∷ []
  insert_by x (y ∷ ys) = if o.less (key y) (key x) then y ∷ insert_by x ys else x ∷ y ∷ ys

  -- sort.Slice on keys, and sort.Strings where the key is the string: without repeated keys every
  -- sort gives this list.
  abbrev pub sort_by : List A → List A
  sort_by [] = []
  sort_by (x ∷ xs) = insert_by x (sort_by xs)

  abbrev pub Above : K → List A → Type (ℓ ⊔ κ)
  Above k [] = Unit
  Above k (y ∷ ys) = (o.less k (key y) ≡ true) × Above k ys

  abbrev pub Ascends : List A → Type (ℓ ⊔ κ)
  Ascends [] = Unit
  Ascends (x ∷ xs) = Above (key x) xs × Ascends xs

  Above-trans : (j k : K) (xs : List A) → o.less j k ≡ true → Above k xs → Above j xs
  Above-trans j k [] h a = tt
  Above-trans j k (x ∷ xs) h a = (o.trans j k (key x) h a.0, Above-trans j k xs h a.1)

  less-ne : (j k : K) → o.less j k ≡ true → (j == k) ≡ false
  less-ne j k h = elim (Bool-cases (j == k)) [
    | inl same ↦
        ground (arith, subst (λ i. o.less j i ≡ true) (sym ((e.eq_iff j k).0 same)) h, o.irrefl j)
    | inr apart ↦ apart
  ]

  find_by-Above : (k : K) (xs : List A) → Above k xs → find_by k xs ≡ none
  find_by-Above k [] a = refl
  find_by-Above k (x ∷ xs) a =
      ground (
        arith,
        less-ne k (key x) a.0,
        e.eq_iff k (key x),
        e.eq_iff (key x) k,
        find_by-Above k xs a.1,
      )

  pub find_by-insert_by :
      (k : K) (x : A) (xs : List A)
      → find_by (key x) xs ≡ none
      → find_by k (insert_by x xs) ≡ (if key x == k then some x else find_by k xs)
  find_by-insert_by k x [] h = refl
  find_by-insert_by k x (y ∷ ys) h = ground (
    arith,
    find_by-insert_by k x ys,
    e.eq_iff (key x) k,
    e.eq_iff (key y) k,
    e.eq_iff (key y) (key x),
  )

  Above-insert_by :
      (k : K) (x : A) (xs : List A)
      → o.less k (key x) ≡ true
      → Above k xs
      → Above k (insert_by x xs)
  Above-insert_by k x [] h a = (h, tt)
  Above-insert_by k x (y ∷ ys) h a = elim (Bool-cases (o.less (key y) (key x))) [
    | inl before ↦ rw (before) (a.0, Above-insert_by k x ys h a.1)
    | inr after ↦ rw (after) (h, a)
  ]

  pub Ascends-insert_by :
      (x : A) (xs : List A) → find_by (key x) xs ≡ none → Ascends xs → Ascends (insert_by x xs)
  Ascends-insert_by x [] h s = (tt, tt)
  Ascends-insert_by x (y ∷ ys) h s = elim (Bool-cases (o.less (key y) (key x))) [
    | inl before ↦
        rw (before)
          (Above-insert_by (key y) x ys before s.0, Ascends-insert_by x ys (ground arith) s.1)
    | inr after ↦ elim (Bool-cases (o.less (key x) (key y))) [
      | inl first ↦ rw (after) ((first, Above-trans (key x) (key y) ys first s.0), s)
      | inr neither ↦
          ground (arith, (e.eq_iff (key y) (key x)).1 (o.total (key y) (key x) after neither))
    ]
  ]

  -- No key twice
  abbrev pub Apart : List A → Type (ℓ ⊔ κ)
  Apart [] = Unit
  Apart (x ∷ xs) = (find_by (key x) xs ≡ none) × Apart xs

  pub find_by-sort_by : (k : K) (xs : List A) → Apart xs → find_by k (sort_by xs) ≡ find_by k xs
  find_by-sort_by k [] a = refl
  find_by-sort_by k (x ∷ xs) a = ground (
    arith,
    find_by-sort_by k xs a.1,
    find_by-sort_by (key x) xs a.1,
    find_by-insert_by k x (sort_by xs),
  )

  pub Ascends-sort_by : (xs : List A) → Apart xs → Ascends (sort_by xs)
  Ascends-sort_by [] a = tt
  Ascends-sort_by (x ∷ xs) a =
      Ascends-insert_by x (sort_by xs) (find_by-sort_by (key x) xs a.1 ∙ a.0)
        (Ascends-sort_by xs a.1)

  -- The head of one list comes no later than a key that the other holds.
  head_first :
      (x y : A) (xs ys : List A)
      → Above (key y) ys
      → find_by (key x) (y ∷ ys) ≡ some x
      → o.less (key x) (key y) ≡ false
  head_first x y xs ys a h = elim (Bool-cases (o.less (key x) (key y))) [
    | inr later ↦ later
    | inl before ↦ ground (
      arith,
      h,
      find_by-Above (key x) ys (Above-trans (key x) (key y) ys before a),
      less-ne (key x) (key y) before,
      e.eq_iff (key x) (key y),
      e.eq_iff (key y) (key x),
    )
  ]

  pub Ascends-ext :
      (xs ys : List A) → Ascends xs → Ascends ys → ((k : K) → find_by k xs ≡ find_by k ys) → xs ≡ ys
  Ascends-ext [] [] sx sy h = refl
  Ascends-ext [] (y ∷ ys) sx sy h = ground (arith, h (key y), beq_refl (key y))
  Ascends-ext (x ∷ xs) [] sx sy h = ground (arith, h (key x), beq_refl (key x))
  Ascends-ext (x ∷ xs) (y ∷ ys) sx sy h =
      let keys : key x ≡ key y =
        o.total (key x) (key y)
          (head_first x y xs ys sy.0 (ground (arith, h (key x), beq_refl (key x))))
          (head_first y x ys xs sx.0 (ground (arith, h (key y), beq_refl (key y)))) in
      let heads : x ≡ y = ground (
        arith,
        h (key x),
        beq_refl (key x),
        beq_refl (key y),
        (e.eq_iff (key y) (key x)).1 (sym keys),
      ) in
      let tails : xs ≡ ys = Ascends-ext xs ys sx.1 sy.1 (λ k. elim (Bool-cases (key x == k)) [
        | inl here ↦
            let at : key x ≡ k = (e.eq_iff (key x) k).0 here in
            subst (λ j. find_by j xs ≡ find_by j ys) at
              (find_by-Above (key x) xs sx.0
                ∙ sym (subst (λ j. find_by j ys ≡ none) (sym keys) (find_by-Above (key y) ys sy.0)))
        | inr apart ↦
            let apart_too : (key y == k) ≡ false = subst (λ j. (j == k) ≡ false) keys apart in
            ground (arith, h k, apart, apart_too)
      ]) in
      λ i. heads i ∷ tails i
