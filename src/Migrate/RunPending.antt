-- ===== src/Migrate/RunPending.antt =====
-- RunPending and CheckReady from their start: the reads, the dirty versions, and the loop.
use gas.Prelude.{
  String, string_eq, string_order, ◌==◌, Bool, true, false, Option, none, some, List, [], ◌∷◌,
  contains, All, All-map, ◌≡◌, inl, inr, refl, sym, ap, ◌∙◌, subst, arith, Bool-cases,
}
use gas.Migrate.{Migration, MigrateError, ok, registered_migrations}
use gas.Migrate.Run.{Row, Database, Service, versions, apply_pending, run_pending, apply_registered}
use gas.Migrate.Registry.{Result-cases}
use gas.Migrate.Versions.{registered-IsMerged}
use gas.Migrate.Tracking.{Tracks, is_row, is_dirty_row}
use gas.Migrate.Start.{reads, Started, Started-checked, checked-Started}
use gas.Migrate.Pending.{AllClean, Elsewhere, After, apply_pending-After}

module _ {S : Type 0} (db : Database S) (laws : Tracks db) where
  pub reads-row : (s : S) (k : String) → laws.row (reads db s) k ≡ laws.row s k
  reads-row s k = laws.get_applied_row (db.get_dirty s).1 k ∙ laws.get_dirty_row s k

  -- No row is dirty where the query of the dirty rows is empty.
  pub Started-clean :
      (svc : Service) (s : S) (rows : List Row) (k : String)
      → Started db svc s rows
      → is_dirty_row (laws.row s k) ≡ false
  Started-clean svc s rows k h = sym (laws.get_dirty_rows s [] k h.none_dirty)

  pub Started-applied :
      (svc : Service) (s : S) (rows : List Row) (k : String)
      → Started db svc s rows
      → contains (versions rows) k ≡ is_row (laws.row s k)
  Started-applied svc s rows k h =
      laws.get_applied_rows (db.get_dirty s).1 rows k h.has_rows
      ∙ ap is_row (laws.get_dirty_row s k)

  -- A version in the rows that were read is applied and clean.
  pub Started-row :
      (svc : Service) (s : S) (rows : List Row) (k : String)
      → Started db svc s rows
      → contains (versions rows) k ≡ true
      → laws.row s k ≡ some false
  Started-row svc s rows k h there = known (laws.row s k) refl
    where
      known : (r : Option Bool) → r ≡ laws.row s k → laws.row s k ≡ some false
      known none e = ground (arith, Started-applied svc s rows k h, e, there)
      known (some true) e = ground (arith, Started-clean svc s rows k h, e)
      known (some false) e = sym e

  -- All migrations of the list are applied and clean.
  abbrev pub AllApplied : List Migration → S → Type 0
  AllApplied ms t = All (λ m. laws.row t m.version ≡ some false) ms

  apart_applied :
      (applied : List String) (k : String) (ms : List Migration)
      → contains applied k ≡ true
      → All (λ m. contains applied m.version ≡ false → (m.version == k) ≡ false) ms
  apart_applied applied k [] there = tt
  apart_applied applied k (m ∷ ms) there = (
    λ new. ground (arith, new, there, ap (contains applied), string_eq.eq_iff m.version k),
    apart_applied applied k ms there,
  )

  -- A state in which every registered migration is applied
  abbrev pub IsDone : Service → S → Type 0
  IsDone svc s =
      (all : List Migration) × (registered_migrations svc.registered ≡ ok all)
      × AllApplied all s
      × ((k : String) → is_dirty_row (laws.row s k) ≡ false)

  -- Where the SQL of every registered Up leaves the tracking table alone and does not end the
  -- transaction, RunPending behind its start runs, in the order of the versions, the Up of the
  -- registered migrations that have no row: if it answers no error, they are all applied and clean, and
  -- exactly their Ups came into force; at an error it stops, with those in front applied and clean and
  -- their Ups in force, the failed one marked as dirty (unless its transaction did not start or the
  -- marking failed) and its Up not in force (unless the commit failed), and those behind as they were.
  -- No other row changes.
  pub run_pending-After :
      (svc : Service) (s : S) (rows : List Row) (all : List Migration)
      → Started db svc s rows
      → registered_migrations svc.registered ≡ ok all
      → All (λ m. laws.is_safe m.up ≡ true) all
      → After db laws (versions rows) all (reads db s) (run_pending db svc s)
  unfolding run_pending apply_registered
  run_pending-After svc s rows all h e safe =
      let ran : run_pending db svc s ≡ apply_pending db (versions rows) all (reads db s) =
        Started-checked db svc
          (λ rows s. apply_registered db (versions rows) (registered_migrations svc.registered) s) s
          rows h
        ∙ ap (λ r. apply_registered db (versions rows) r (reads db s)) e in
      subst (After db laws (versions rows) all (reads db s)) (sym ran) (
        apply_pending-After db laws (versions rows) all (reads db s)
          (registered-IsMerged svc.registered all e).ascends safe)

  AllApplied-Clean :
      (svc : Service) (s t : S) (rows : List Row) (all ms : List Migration)
      → Started db svc s rows
      → AllClean db laws (versions rows) ms t
      → Elsewhere db laws (versions rows) all (reads db s) t
      → AllApplied ms t
  AllApplied-Clean svc s t rows all [] h clean elsewhere = tt
  AllApplied-Clean svc s t rows all (m ∷ ms) h clean elsewhere = (
    elim (Bool-cases (contains (versions rows) m.version)) [
      | inl there ↦
          elsewhere m.version (apart_applied (versions rows) m.version all there)
          ∙ reads-row s m.version
          ∙ Started-row svc s rows m.version h there
      | inr new ↦ clean.0 new
    ],
    AllApplied-Clean svc s t rows all ms h clean.1 elsewhere,
  )

  clean_elsewhere :
      (svc : Service) (s t : S) (rows : List Row) (k : String) (all ms : List Migration)
      → Started db svc s rows
      → AllApplied ms t
      → (All (λ m. (m.version == k) ≡ false) ms → laws.row t k ≡ laws.row s k)
      → is_dirty_row (laws.row t k) ≡ false
  clean_elsewhere svc s t rows k all [] h done kept =
      ap is_dirty_row (kept tt) ∙ Started-clean svc s rows k h
  clean_elsewhere svc s t rows k all (m ∷ ms) h done kept = elim (Bool-cases (m.version == k)) [
    | inl here ↦ ground (arith, done.0, ap (laws.row t) ((string_eq.eq_iff m.version k).0 here))
    | inr apart ↦ clean_elsewhere svc s t rows k all ms h done.1 (λ a. kept (apart, a))
  ]

  IsDone-After :
      (svc : Service) (s : S) (rows : List Row) (all : List Migration)
      → Started db svc s rows
      → registered_migrations svc.registered ≡ ok all
      → (r : Option MigrateError × S) → r.0 ≡ none
      → After db laws (versions rows) all (reads db s) r
      → IsDone svc r.1
  IsDone-After svc s rows all h e (some x, t) n after = cc
  IsDone-After svc s rows all h e (none, t) n (clean, elsewhere, ran) =
      let done = AllApplied-Clean svc s t rows all all h clean elsewhere in
      (
        all,
        e,
        done,
        λ k. clean_elsewhere svc s t rows k all all h done (λ a.
            elsewhere k (
              All-map (λ m. (m.version == k) ≡ false)
                (λ m. contains (versions rows) m.version ≡ false → (m.version == k) ≡ false) all
                (λ m b new. b) a)
            ∙ reads-row s k),
      )

  -- The SQL of every registered Up leaves the tracking table alone and does not end the transaction.
  abbrev pub AreSafe : Service → Type 0
  AreSafe svc =
      (all : List Migration)
      → registered_migrations svc.registered ≡ ok all
      → All (λ m. laws.is_safe m.up ≡ true) all

  -- Where RunPending answers no error, every registered migration is applied and no row is dirty.
  pub run_pending-IsDone :
      (svc : Service) (s : S)
      → AreSafe svc
      → (run_pending db svc s).0 ≡ none
      → IsDone svc (run_pending db svc s).1
  unfolding run_pending apply_registered
  run_pending-IsDone svc s safe n =
      let continue : List Row → S → Option MigrateError × S =
        λ rows s. apply_registered db (versions rows) (registered_migrations svc.registered) s in
      let (rows, h) = checked-Started db svc continue s n in
      elim (Result-cases (registered_migrations svc.registered)) [
        | inr (x, e) ↦ ground (
          arith,
          n,
          ap (λ r. r.0)
              (Started-checked db svc continue s rows h
                ∙ ap (λ r. apply_registered db (versions rows) r (reads db s)) e),
        )
        | inl (all, e) ↦
            IsDone-After svc s rows all h e (run_pending db svc s) n
              (run_pending-After svc s rows all h e (safe all e))
      ]
