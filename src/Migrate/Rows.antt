-- ===== src/Migrate/Rows.antt =====
-- The rows that Down goes through, and the migrations that they name.
use mathlib.Core.List.{reverse_aux}
use gas.Prelude.{
  ℕ, zero, suc, String, string_eq, string_order, ◌==◌, true, false, none, some, List, [], ◌∷◌,
  contains, All, Distinct, ◌≡◌, inl, inr, refl, sym, ap, ◌∙◌, subst, arith, Bool-cases, beq_refl,
  take,
}
use gas.Migrate.{Migration}
use gas.Migrate.Run.{Row, versions}
use gas.Migrate.Registry.{version, find}

pub Distinct-reverse_aux :
    (rows acc : List Row)
    → Distinct (versions rows)
    → Distinct (versions acc)
    → ((k : String) → contains (versions rows) k ≡ true → contains (versions acc) k ≡ false)
    → Distinct (versions (reverse_aux rows acc))
Distinct-reverse_aux [] acc d a h = a
Distinct-reverse_aux (r ∷ rows) acc d a h =
    Distinct-reverse_aux rows (r ∷ acc) d.1 (h r.version (ground (arith, beq_refl r.version)), a)
      (λ k there.
        ground
          (arith, h k, there, d.0, string_eq.eq_iff r.version k, ap (contains (versions rows))))

contains-take :
    (n : ℕ) (rows : List Row) (k : String)
    → contains (versions rows) k ≡ false
    → contains (versions (take n rows)) k ≡ false
contains-take zero rows k h = refl
contains-take (suc n) [] k h = refl
contains-take (suc n) (r ∷ rows) k h = ground (arith, contains-take n rows k)

pub Distinct-take :
    (n : ℕ) (rows : List Row) → Distinct (versions rows) → Distinct (versions (take n rows))
Distinct-take zero rows d = tt
Distinct-take (suc n) [] d = tt
Distinct-take (suc n) (r ∷ rows) d = (contains-take n rows r.version d.0, Distinct-take n rows d.1)

pub find-version :
    (v : String) (ms : List Migration) (m : Migration) → find v ms ≡ some m → m.version ≡ v
find-version v [] m h = cc
find-version v (x ∷ ms) m h = elim (Bool-cases (x.version == v)) [
  | inl here ↦
      let is : x ≡ m = ground (arith, here, h) in
      ap version (sym is) ∙ (string_eq.eq_iff x.version v).0 here
  | inr apart ↦ find-version v ms m (ground (arith, apart, h))
]

pub find-All :
    (P : Migration → Type 0) (v : String) (ms : List Migration) (m : Migration)
    → All P ms
    → find v ms ≡ some m
    → P m
find-All P v [] m a h = cc
find-All P v (x ∷ ms) m a h = elim (Bool-cases (x.version == v)) [
  | inl here ↦ let is : x ≡ m = ground (arith, here, h) in subst P is a.0
  | inr apart ↦ find-All P v ms m a.1 (ground (arith, apart, h))
]

-- The SQL that the loop of Down runs for the rows
abbrev pub downs : List Migration → List Row → List String
downs all [] = []
downs all (r ∷ rows) = elim (find r.version all) [
  | none ↦ downs all rows
  | some m ↦ m.down ∷ downs all rows
]

pub downs-found :
    (all : List Migration) (r : Row) (rows : List Row) (m : Migration)
    → find r.version all ≡ some m
    → downs all (r ∷ rows) ≡ m.down ∷ downs all rows
downs-found all r rows m h = rw (h, downs) refl
