-- ===== src/Migrate/Versions.antt =====
-- The result of registeredMigrations.
use gas.Prelude.{
  String, string_eq, string_order, ◌==◌, true, none, some, List, [], ◌∷◌, ◌++◌, if◌then◌else◌,
  contains, All, All-append, All-map, Distinct, ◌≡◌, inl, inr, refl, sym, ap, ◌∙◌, subst, arith,
  Bool-cases, Option-cases, beq_refl, find_by, sort_by, Ascends, Apart, find_by-sort_by,
  Ascends-sort_by,
}
use gas.Maps
use gas.Maps.{Map}
use gas.Maps.Laws.{contains-keys}
use gas.Migrate.{
  Migration, Registered, or_nil, ok, add_versions, by_name, values, registered_migrations,
}
use gas.Migrate.Registry.{version, find, listed, IsKeyed, add_versions-Added, Result-cases}

abbrev pub name_of : String → String
name_of name = name

find-values :
    (M : Map String Migration) (v : String)
    → IsKeyed M
    → Distinct (Maps.keys M)
    → find v (values M) ≡ Maps.lookup v M
find-values [] v keyed d = refl
find-values ((k, m) ∷ M) v keyed d =
    let here : m.version ≡ k = keyed k m (ground (arith, beq_refl k)) in
    let tail : IsKeyed M =
      λ w x h. keyed w x (ground (arith, h, contains-keys k M, d.0, string_eq.eq_iff k w)) in
    ground
      (arith, here, find-values M v tail d.1, string_eq.eq_iff m.version v, string_eq.eq_iff k v)

Apart-values :
    (M : Map String Migration) → IsKeyed M → Distinct (Maps.keys M) → Apart version (values M)
Apart-values [] keyed d = tt
Apart-values ((k, m) ∷ M) keyed d =
    let here : m.version ≡ k = keyed k m (ground (arith, beq_refl k)) in
    let tail : IsKeyed M =
      λ w x h. keyed w x (ground (arith, h, contains-keys k M, d.0, string_eq.eq_iff k w)) in
    (
      find-values M m.version tail d.1
          ∙ ap (λ v. Maps.lookup v M) here
          ∙ ground (arith, contains-keys k M, d.0),
      Apart-values M tail d.1,
    )

-- What registeredMigrations says of the migrations `all` that it returns
pub record IsMerged (ms all : List Migration) : Type 0 where
  pub ascends : Ascends version all
  pub first : (v : String) → find v all ≡ find v ms
  pub same : All (λ m. find m.version all ≡ some m) ms

pub registered-IsMerged :
    (regs : Registered) (all : List Migration)
    → registered_migrations regs ≡ ok all
    → IsMerged (listed regs) all
unfolding registered_migrations
registered-IsMerged regs all h = elim (Result-cases (add_versions (listed regs) [])) [
  | inr (x, e) ↦ cc
  | inl (M, e) ↦
      let added = add_versions-Added (listed regs) [] M (λ v m h. cc) tt e in
      let is : sort_by version (values M) ≡ all = cc in
      let apart = Apart-values M added.keyed added.distinct in
      let found : (v : String) → find v (sort_by version (values M)) ≡ Maps.lookup v M = λ v.
        find_by-sort_by version v (values M) apart ∙ find-values M v added.keyed added.distinct in
      subst (IsMerged (listed regs)) is (record {
        ascends = Ascends-sort_by version (values M) apart;
        first = λ v. found v ∙ added.first v;
        same =
            All-map (λ m. Maps.lookup m.version M ≡ some m)
              (λ m. find m.version (sort_by version (values M)) ≡ some m) (listed regs)
              (λ m k. found m.version ∙ k) added.all;
      })
]

All-append-left : (P : Migration → Type 0) (xs ys : List Migration) → All P (xs ++ ys) → All P xs
All-append-left P [] ys h = tt
All-append-left P (x ∷ xs) ys h = (h.0, All-append-left P xs ys h.1)

All-append-right : (P : Migration → Type 0) (xs ys : List Migration) → All P (xs ++ ys) → All P ys
All-append-right P [] ys h = h
All-append-right P (x ∷ xs) ys h = All-append-right P xs ys h.1

pub All-by_name :
    (P : Migration → Type 0) (names : List String) (regs : Registered) (name : String)
    (ms : List Migration)
    → All P (by_name names regs)
    → contains names name ≡ true
    → Maps.lookup name regs ≡ some ms
    → All P ms
unfolding by_name
All-by_name P [] regs name ms h c e = cc
All-by_name P (n ∷ names) regs name ms h c e = elim (Bool-cases (n == name)) [
  | inl here ↦
      subst (All P)
        (ap or_nil (ap (λ x. Maps.lookup x regs) ((string_eq.eq_iff n name).0 here) ∙ e))
        (All-append-left P (or_nil (Maps.lookup n regs)) (by_name names regs) h)
  | inr there ↦
      All-by_name P names regs name ms
        (All-append-right P (or_nil (Maps.lookup n regs)) (by_name names regs) h) (ground arith) e
]

pub by_name-All :
    (P : Migration → Type 0) (names : List String) (regs : Registered)
    → ((name : String) (ms : List Migration) → Maps.lookup name regs ≡ some ms → All P ms)
    → All P (by_name names regs)
unfolding by_name
by_name-All P [] regs f = tt
by_name-All P (n ∷ names) regs f =
    All-append P (or_nil (Maps.lookup n regs)) (by_name names regs)
      (elim (Option-cases (Maps.lookup n regs)) [
        | inl missing ↦ subst (λ x. All P (or_nil x)) (sym missing) tt
        | inr (ms, found) ↦ subst (λ x. All P (or_nil x)) (sym found) (f n ms found)
      ])
      (by_name-All P names regs f)

find-append :
    (v : String) (xs ys : List Migration)
    → find v (xs ++ ys) ≡ (elim (find v xs) [ none ↦ find v ys | some m ↦ some m ])
find-append v [] ys = refl
find-append v (x ∷ xs) ys = ground (arith, find-append v xs ys)

pub find-by_name :
    (v : String) (m : Migration) (names : List String) (regs : Registered)
    → find v (by_name names regs) ≡ some m
    → (name : String) × (ms : List Migration) × (Maps.lookup name regs ≡ some ms)
      × (find v ms ≡ some m)
unfolding by_name
find-by_name v m [] regs h = cc
find-by_name v m (n ∷ names) regs h = elim (Option-cases (Maps.lookup n regs)) [
  | inl missing ↦
      find-by_name v m names regs (
        ground
          (arith, missing, find-append v (or_nil (Maps.lookup n regs)) (by_name names regs), h))
  | inr (ms, found) ↦ elim (Option-cases (find v ms)) [
    | inl not_here ↦ find-by_name v m names regs (
        ground (
          arith,
          found,
          not_here,
          find-append v (or_nil (Maps.lookup n regs)) (by_name names regs),
          h,
        ))
    | inr (x, here) ↦ (
      n,
      ms,
      found,
      ground
          (arith, found, here, find-append v (or_nil (Maps.lookup n regs)) (by_name names regs), h),
    )
  ]
]

pub find-name :
    (k : String) (xs : List String)
    → find_by name_of k xs ≡ (if contains xs k then some k else none)
find-name k [] = refl
find-name k (x ∷ xs) = ground (arith, find-name k xs, string_eq.eq_iff x k)

pub Apart-Distinct : (xs : List String) → Distinct xs → Apart name_of xs
Apart-Distinct [] d = tt
Apart-Distinct (x ∷ xs) d = (find-name x xs ∙ ground (arith, d.0), Apart-Distinct xs d.1)

pub contains-sorted :
    (xs : List String) (k : String) → Distinct xs → contains (sort_by name_of xs) k ≡ contains xs k
contains-sorted xs k d = ground (
  arith,
  find-name k (sort_by name_of xs),
  find-name k xs,
  find_by-sort_by name_of k xs (Apart-Distinct xs d),
)
