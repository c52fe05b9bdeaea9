-- ===== src/Prelude/Counting.antt =====
-- Lists with no element twice: taking an element out, appending, and comparing lengths.
use Prim.Native.Nat.{◌+◌, ◌≤◌}
use mathlib.Core.Path.{◌≡◌, refl}
use mathlib.Core.Logic.{inl, inr}
use mathlib.Core.Bool.{Bool, true, false, ◌&&◌}
use mathlib.Core.List.{List, [], ◌∷◌, ◌++◌}
use native.Mathlib.Omega.{arith}
use gas.Prelude.Tests.{Eq, ◌==◌, if◌then◌else◌, beq_refl, Bool-cases}
use gas.Prelude.Lists.{length, keep_if, contains, Distinct, contains-append}

module _ {ℓ} {K : Type ℓ} ⦃e : Eq K⦄ where
  -- The first occurrence taken out.
  abbrev pub erase : K → List K → List K
  erase k [] = []
  erase k (x ∷ xs) = if x == k then xs else x ∷ erase k xs

  pub contains-erase :
      (ks : List K) (k j : K)
      → Distinct ks
      → contains (erase k ks) j ≡ (if k == j then false else contains ks j)
  contains-erase [] k j d = ground arith
  contains-erase (x ∷ xs) k j d =
      ground (arith, contains-erase xs k j d.1, e.eq_iff x k, e.eq_iff k j, e.eq_iff x j)

  pub Distinct-erase : (ks : List K) (k : K) → Distinct ks → Distinct (erase k ks)
  Distinct-erase [] k d = tt
  Distinct-erase (x ∷ xs) k d = ground (arith, contains-erase xs k x d.1, Distinct-erase xs k d.1)

  pub length-erase :
      (ks : List K) (k : K) → length (erase k ks) + (if contains ks k then 1 else 0) ≡ length ks
  length-erase [] k = omega arith
  length-erase (x ∷ xs) k = ground (arith, length-erase xs k)

  pub Distinct-append :
      (xs ys : List K)
      → Distinct xs
      → Distinct ys
      → ((t : K) → contains ys t ≡ true → contains xs t ≡ false)
      → Distinct (xs ++ ys)
  Distinct-append [] ys dx dy h = dy
  Distinct-append (x ∷ xs) ys dx dy h = (
    ground (arith, contains-append xs ys x, h x, beq_refl x, dx.0),
    Distinct-append xs ys dx.1 dy (λ t c. ground (arith, h t c)),
  )

  -- The element behind a prefix is not in it.
  pub Distinct-middle : (xs ys : List K) (x : K) → Distinct (xs ++ x ∷ ys) → contains xs x ≡ false
  Distinct-middle [] ys x d = refl
  Distinct-middle (y ∷ xs) ys x d = ground (
    arith,
    Distinct-middle xs ys x d.1,
    contains-append xs (x ∷ ys) y,
    d.0,
    e.eq_iff x y,
    e.eq_iff y x,
  )

  pub length-le_of_subset :
      (xs ys : List K)
      → Distinct xs
      → Distinct ys
      → ((t : K) → contains xs t ≡ true → contains ys t ≡ true)
      → length xs ≤ length ys
  length-le_of_subset [] ys dx dy h = omega arith
  length-le_of_subset (x ∷ xs) ys dx dy h =
      let rest =
        length-le_of_subset xs (erase x ys) dx.1 (Distinct-erase ys x dy)
          (λ t c. ground (arith, contains-erase ys x t dy, h t, e.eq_iff x t, dx.0)) in
      ground (arith, length-erase ys x, h x, beq_refl x, rest)

  -- Distinct lists, one in the other and of one length, have the same elements.
  pub contains_of_length :
      (xs ys : List K)
      → Distinct xs
      → Distinct ys
      → ((t : K) → contains xs t ≡ true → contains ys t ≡ true)
      → length xs ≡ length ys
      → (t : K) → contains ys t ≡ true
      → contains xs t ≡ true
  contains_of_length xs ys dx dy h same t c = elim (Bool-cases (contains xs t)) [
    | inl there ↦ there
    | inr missing ↦
        let longer =
          length-le_of_subset (t ∷ xs) ys (missing, dx) dy
            (λ u d. ground (arith, h u, e.eq_iff t u)) in
        absurd (omega arith)
  ]

  pub contains-keep_if :
      (p : K → Bool) (ts : List K) (t : K) → contains (keep_if p ts) t ≡ (contains ts t && p t)
  contains-keep_if p [] t = refl
  contains-keep_if p (u ∷ ts) t = elim (Bool-cases (u == t)) [
    | inl same ↦ rw ((e.eq_iff u t).0 same) (ground (arith, contains-keep_if p ts t))
    | inr other ↦ ground (arith, contains-keep_if p ts t)
  ]
