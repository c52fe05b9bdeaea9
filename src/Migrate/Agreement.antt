-- ===== src/Migrate/Agreement.antt =====
-- registeredMigrations against the registrations: its versions ascend, it has all of them, it fails
-- only for a conflict, and the order of the map's iteration changes nothing.
use gas.Prelude.{
  String, string_eq, string_order, ◌==◌, true, none, some, List, [], ◌∷◌, if◌then◌else◌, contains,
  All, Distinct, ◌≡◌, inl, inr, refl, sym, ap, ◌∙◌, subst, arith, Bool-cases, Option-cases, sort_by,
  Ascends, find_by-sort_by, Ascends-sort_by, Ascends-ext,
}
use gas.Maps
use gas.Maps.{Map}
use gas.Maps.Laws.{lookup-insert, contains-keys}
use gas.Migrate.{
  Migration, Registered, ok, and_then, is_same, add_version, add_versions, by_name, values,
  registered_migrations,
}
use gas.Migrate.Registry.{version, find, listed, is_same_refl}
use gas.Migrate.Versions.{
  name_of, registered-IsMerged, All-by_name, by_name-All, find-by_name, find-name, Apart-Distinct,
  contains-sorted,
}

-- The migrations that registeredMigrations returns have ascending versions; every registered
-- migration is the one that stands there under its version, so that two registrations of a version
-- are the same; and each of them is registered.
pub registered_migrations-listed :
    (regs : Registered) (all : List Migration)
    → Distinct (Maps.keys regs)
    → registered_migrations regs ≡ ok all
    → Ascends version all
      × ((name : String) (ms : List Migration)
          → Maps.lookup name regs ≡ some ms
          → All (λ m. find m.version all ≡ some m) ms)
      × ((v : String) (m : Migration)
          → find v all ≡ some m
          → (name : String) × (ms : List Migration) × (Maps.lookup name regs ≡ some ms)
            × (find v ms ≡ some m))
registered_migrations-listed regs all d h =
    let merged = registered-IsMerged regs all h in
    let names = sort_by name_of (Maps.keys regs) in
    (
      merged.ascends,
      λ name ms e.
          All-by_name (λ m. find m.version all ≡ some m) names regs name ms merged.same
            (ground (arith, contains-sorted (Maps.keys regs) name d, contains-keys name regs, e)) e,
      λ v m e. find-by_name v m names regs (sym (merged.first v) ∙ e),
    )

-- What there is under each version is one of the migrations of `content`.
abbrev Agrees : (String → Migration) → Map String Migration → Type 0
Agrees content M = (v : String) (m : Migration) → Maps.lookup v M ≡ some m → m ≡ content v

add_versions-Agrees :
    (content : String → Migration) (ms : List Migration) (M : Map String Migration)
    → Agrees content M
    → All (λ m. m ≡ content m.version) ms
    → (M' : Map String Migration) × (add_versions ms M ≡ ok M')
unfolding add_versions add_version
add_versions-Agrees content [] M agrees h = (M, refl)
add_versions-Agrees content (m ∷ ms) M agrees h = elim (Option-cases (Maps.lookup m.version M)) [
  | inl new ↦
      let (M', e) =
        add_versions-Agrees content ms (Maps.insert m.version m M)
          (λ v x f. elim (Bool-cases (m.version == v)) [
            | inl here ↦
                let at : m.version ≡ v = (string_eq.eq_iff m.version v).0 here in
                let is : m ≡ x = ground (arith, f, here, lookup-insert m.version v m M) in
                sym is ∙ h.0 ∙ ap content at
            | inr there ↦ agrees v x (ground (arith, f, there, lookup-insert m.version v m M))
          ])
          h.1 in
      (M', simp (add_versions, add_version, new) e)
  | inr (x, old) ↦
      let is : x ≡ m = agrees m.version x old ∙ sym h.0 in
      let same : is_same x m ≡ true = subst (λ y. is_same y m ≡ true) (sym is) (is_same_refl m) in
      let (M', e) = add_versions-Agrees content ms M agrees h.1 in
      (M', simp (add_versions, add_version, old, same) e)
]

-- Where any two registrations of a version bring the same migration of the same service,
-- registeredMigrations does not fail.
pub registered_migrations-ok :
    (regs : Registered) (content : String → Migration)
    → ((name : String) (ms : List Migration)
        → Maps.lookup name regs ≡ some ms
        → All (λ m. m ≡ content m.version) ms)
    → (all : List Migration) × (registered_migrations regs ≡ ok all)
unfolding registered_migrations
registered_migrations-ok regs content h =
    let (M, e) =
      add_versions-Agrees content (listed regs) [] (λ v m f. cc)
        (by_name-All (λ m. m ≡ content m.version) (sort_by name_of (Maps.keys regs)) regs h) in
    (sort_by version (values M), simp (registered_migrations, e))

sort_by-keys :
    (xs ys : List String)
    → Distinct xs
    → Distinct ys
    → ((k : String) → contains xs k ≡ contains ys k)
    → sort_by name_of xs ≡ sort_by name_of ys
sort_by-keys xs ys dx dy h =
    Ascends-ext name_of (sort_by name_of xs) (sort_by name_of ys)
      (Ascends-sort_by name_of xs (Apart-Distinct xs dx))
      (Ascends-sort_by name_of ys (Apart-Distinct ys dy))
      (λ k.
        find_by-sort_by name_of k xs (Apart-Distinct xs dx)
        ∙ find-name k xs
        ∙ ap (λ b. if b then some k else none) (h k)
        ∙ sym (find-name k ys)
        ∙ sym (find_by-sort_by name_of k ys (Apart-Distinct ys dy)))

by_name-ext :
    (names : List String) (regs others : Registered)
    → ((k : String) → Maps.lookup k regs ≡ Maps.lookup k others)
    → by_name names regs ≡ by_name names others
unfolding by_name
by_name-ext [] regs others h = refl
by_name-ext (n ∷ names) regs others h = cc (h n, by_name-ext names regs others h)

-- The order of Go's iteration over the map of registrations changes nothing: two lists of the same
-- entries give the same migrations, or the same error.
pub registered_migrations-order :
    (regs others : Registered)
    → Distinct (Maps.keys regs)
    → Distinct (Maps.keys others)
    → ((k : String) → Maps.lookup k regs ≡ Maps.lookup k others)
    → registered_migrations regs ≡ registered_migrations others
unfolding registered_migrations
registered_migrations-order regs others d d' h =
    let names =
      sort_by-keys (Maps.keys regs) (Maps.keys others) d d'
        (λ k. contains-keys k regs ∙ ap Maps.is_some (h k) ∙ sym (contains-keys k others)) in
    let lists : listed regs ≡ listed others =
      by_name-ext (sort_by name_of (Maps.keys regs)) regs others h
      ∙ ap (λ n. by_name n others) names in
    ap (λ l. and_then (add_versions l []) (λ by_version. ok (sort_by version (values by_version))))
      lists
