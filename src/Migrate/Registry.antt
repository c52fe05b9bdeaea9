-- ===== src/Migrate/Registry.antt =====
-- registeredMigrations: each version once, in order, from every service, whatever the order of Go's
-- iteration over the map.
use gas.Prelude.{
  String, string_eq, string_order, ◌==◌, true, Option, none, some, List, [], ◌∷◌, if◌then◌else◌,
  All, Distinct, ◌≡◌, ◌⊎◌, inl, inr, refl, sym, ap, ◌∙◌, subst, arith, Bool-cases, Option-cases,
  beq_refl, find_by, sort_by,
}
use gas.Maps
use gas.Maps.{Map}
use gas.Maps.Laws.{lookup-insert, Distinct-insert}
use gas.Migrate.{
  Migration, Registered, MigrateError, Result, ok, err, is_same, add_version, add_versions, by_name,
}

abbrev pub version : Migration → String
version m = m.version

abbrev pub find : String → List Migration → Option Migration
find = find_by version

-- The order of the names, and then of the registrations
abbrev pub listed : Registered → List Migration
listed regs = by_name (sort_by (λ name. name) (Maps.keys regs)) regs

pub is_same-eq : (a b : Migration) → a.version ≡ b.version → is_same a b ≡ true → a ≡ b
is_same-eq a b v h =
    let s : a.service ≡ b.service = (string_eq.eq_iff a.service b.service).0 (ground arith) in
    let d : a.description ≡ b.description =
      (string_eq.eq_iff a.description b.description).0 (ground arith) in
    let u : a.up ≡ b.up = (string_eq.eq_iff a.up b.up).0 (ground arith) in
    let w : a.down ≡ b.down = (string_eq.eq_iff a.down b.down).0 (ground arith) in
    λ i. record { version = v i; service = s i; description = d i; up = u i; down = w i }

pub is_same_refl : (m : Migration) → is_same m m ≡ true
is_same_refl m =
    ground (arith, beq_refl m.service, beq_refl m.description, beq_refl m.up, beq_refl m.down)

-- Each entry stands under its migration's version.
abbrev pub IsKeyed : Map String Migration → Type 0
IsKeyed M = (v : String) (m : Migration) → Maps.lookup v M ≡ some m → m.version ≡ v

pub Result-cases :
    {A : Type 0} (r : Result A) → ((a : A) × (r ≡ ok a)) ⊎ ((e : MigrateError) × (r ≡ err e))
Result-cases (ok a) = inl (a, refl)
Result-cases (err e) = inr (e, refl)

add_version-cases :
    (m : Migration) (M M' : Map String Migration)
    → IsKeyed M
    → add_version m M ≡ ok M'
    → (Maps.lookup m.version M ≡ none) × (M' ≡ Maps.insert m.version m M)
      ⊎ (Maps.lookup m.version M ≡ some m) × (M' ≡ M)
unfolding add_version
add_version-cases m M M' keyed h = elim (Option-cases (Maps.lookup m.version M)) [
  | inl new ↦ inl (new, cc)
  | inr (old, found) ↦ elim (Bool-cases (is_same old m)) [
    | inl same ↦ inr (found ∙ ap some (is_same-eq old m (keyed m.version old found) same), cc)
    | inr differs ↦ cc
  ]
]

-- What is there first stays, and a new version is the first migration with it.
abbrev pub First : Map String Migration → List Migration → Map String Migration → Type 0
First M ms M' =
    (v : String)
    → Maps.lookup v M' ≡ (elim (Maps.lookup v M) [ none ↦ find v ms | some m ↦ some m ])

IsKeyed-insert :
    (m : Migration) (M : Map String Migration) → IsKeyed M → IsKeyed (Maps.insert m.version m M)
IsKeyed-insert m M keyed v x h =
    ground (arith, keyed v x, lookup-insert m.version v m M, string_eq.eq_iff m.version v)

pub record Added (M : Map String Migration) (ms : List Migration) (M' : Map String Migration)
    : Type 0 where
  pub first : First M ms M'
  pub all : All (λ m. Maps.lookup m.version M' ≡ some m) ms
  pub keyed : IsKeyed M'
  pub distinct : Distinct (Maps.keys M')

Added-cons :
    (m : Migration) (ms : List Migration) (M N M' : Map String Migration)
    → (Maps.lookup m.version M ≡ none) × (N ≡ Maps.insert m.version m M)
      ⊎ (Maps.lookup m.version M ≡ some m) × (N ≡ M)
    → Added N ms M'
    → Added M (m ∷ ms) M'
Added-cons m ms M N M' (inl (new, e)) ih = record {
  first = λ v.
      let looked : Maps.lookup v N ≡ (if m.version == v then some m else Maps.lookup v M) =
        ap (Maps.lookup v) e ∙ lookup-insert m.version v m M in
      ground (arith, ih.first v, looked, new, string_eq.eq_iff m.version v);
  all = (
    (let looked : Maps.lookup m.version N ≡ some m =
          ap (Maps.lookup m.version) e
          ∙ lookup-insert m.version m.version m M
          ∙ ground (arith, beq_refl m.version) in
        ground (arith, ih.first m.version, looked)),
    ih.all,
  );
  keyed = ih.keyed;
  distinct = ih.distinct;
}
Added-cons m ms M N M' (inr (old, e)) ih = record {
  first = λ v.
      let looked : Maps.lookup v N ≡ Maps.lookup v M = ap (Maps.lookup v) e in
      ground (arith, ih.first v, looked, old, string_eq.eq_iff m.version v);
  all = (
    (let looked : Maps.lookup m.version N ≡ some m = ap (Maps.lookup m.version) e ∙ old in
        ground (arith, ih.first m.version, looked)),
    ih.all,
  );
  keyed = ih.keyed;
  distinct = ih.distinct;
}

pub add_versions-Added :
    (ms : List Migration) (M M' : Map String Migration)
    → IsKeyed M
    → Distinct (Maps.keys M)
    → add_versions ms M ≡ ok M'
    → Added M ms M'
unfolding add_versions
add_versions-Added [] M M' keyed d h =
    let e : M ≡ M' = cc in
    subst (Added M []) e (record {
      first = λ v. ground (arith, Maps.lookup v M);
      all = tt;
      keyed = keyed;
      distinct = d;
    })
add_versions-Added (m ∷ ms) M M' keyed d h = elim (Result-cases (add_version m M)) [
  | inr (x, e) ↦ cc
  | inl (N, e) ↦
      let rest : add_versions ms N ≡ ok M' = cc in
      let cases = add_version-cases m M N keyed e in
      Added-cons m ms M N M' cases
        (add_versions-Added ms N M' (keyed_after N cases) (distinct_after N cases) rest)
]
  where
    keyed_after :
        (N : Map String Migration)
        → (Maps.lookup m.version M ≡ none) × (N ≡ Maps.insert m.version m M)
          ⊎ (Maps.lookup m.version M ≡ some m) × (N ≡ M)
        → IsKeyed N
    keyed_after N (inl (new, e)) = subst IsKeyed (sym e) (IsKeyed-insert m M keyed)
    keyed_after N (inr (old, e)) = subst IsKeyed (sym e) keyed

    distinct_after :
        (N : Map String Migration)
        → (Maps.lookup m.version M ≡ none) × (N ≡ Maps.insert m.version m M)
          ⊎ (Maps.lookup m.version M ≡ some m) × (N ≡ M)
        → Distinct (Maps.keys N)
    distinct_after N (inl (new, e)) =
        subst (λ x. Distinct (Maps.keys x)) (sym e) (Distinct-insert m.version m M d)
    distinct_after N (inr (old, e)) = subst (λ x. Distinct (Maps.keys x)) (sym e) d
