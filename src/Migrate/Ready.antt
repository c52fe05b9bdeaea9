-- ===== src/Migrate/Ready.antt =====
-- RunPending a second time, CheckReady, and what a dirty version stops.
use mathlib.Core.List.{reverse}
use gas.Prelude.{
  take, pos_part, ℕ, zero, suc, String, string_eq, string_order, true, Option, none, some, List, [],
  ◌∷◌, contains, All, ◌≡◌, ◌≢◌, inl, inr, refl, sym, ap, ◌∙◌, arith, Option-cases, ℤ,
}
use gas.Migrate.{Migration, MigrateError, registered_migrations}
use gas.Migrate.Run.{
  Row, Database, Service, versions, checked, usable, run_pending, no_dirty, apply_registered,
  count_pending, counted, count_registered, check_ready, down, revert_registered,
}
use gas.Migrate.Registry.{Result-cases}
use gas.Migrate.Tracking.{Tracks, is_row}
use gas.Migrate.Start.{
  reads, Started, Started-checked, checked-Started, apply_pending-none, count_pending-none,
  count_pending-all, contains_head,
}
use gas.Migrate.RunPending.{
  Started-applied, Started-row, Started-clean, AllApplied, IsDone, AreSafe, run_pending-IsDone,
}

counted-none : (n : ℕ) → counted n ≡ none → n ≡ 0
unfolding counted
counted-none zero h = refl
counted-none (suc n) h = cc

module _ {S : Type 0} (db : Database S) (laws : Tracks db) where
  has_rows :
      (svc : Service) (s : S) (rows : List Row) (ms : List Migration)
      → Started db svc s rows
      → AllApplied db laws ms s
      → All (λ m. contains (versions rows) m.version ≡ true) ms
  has_rows svc s rows [] h done = tt
  has_rows svc s rows (m ∷ ms) h done = (
    Started-applied db laws svc s rows m.version h ∙ ap is_row done.0,
    has_rows svc s rows ms h done.1,
  )

  applied_rows :
      (svc : Service) (s : S) (rows : List Row) (ms : List Migration)
      → Started db svc s rows
      → All (λ m. contains (versions rows) m.version ≡ true) ms
      → AllApplied db laws ms s
  applied_rows svc s rows [] h there = tt
  applied_rows svc s rows (m ∷ ms) h there =
      (Started-row db laws svc s rows m.version h there.0, applied_rows svc s rows ms h there.1)

  -- Where every registered migration is applied and no row is dirty, a RunPending whose reads succeed
  -- runs nothing but the reads, and answers no error; and so does CheckReady.
  run_pending_done :
      (svc : Service) (s : S) (marked rows : List Row)
      → IsDone db laws svc s
      → usable svc ≡ none
      → (db.get_dirty s).0 ≡ some marked
      → (db.get_applied (db.get_dirty s).1).0 ≡ some rows
      → (run_pending db svc s ≡ (none, reads db s)) × (check_ready db svc s ≡ (none, reads db s))
  unfolding run_pending apply_registered check_ready count_registered counted
  run_pending_done svc s (r ∷ marked) rows (all, e, done, clean) free d a = ground (
    arith,
    laws.get_dirty_rows s (r ∷ marked) r.version d,
    contains_head db r marked,
    clean r.version,
  )
  run_pending_done svc s [] rows (all, e, done, clean) free d a =
      let h : Started db svc s rows = record { is_usable = free; none_dirty = d; has_rows = a } in
      let there = has_rows svc s rows all h done in
      (
        Started-checked db svc
              (λ rows s.
                apply_registered db (versions rows) (registered_migrations svc.registered) s)
              s rows h
            ∙ ap (λ r. apply_registered db (versions rows) r (reads db s)) e
            ∙ apply_pending-none db (versions rows) all (reads db s) there,
        Started-checked db svc
              (λ rows s.
                count_registered db (versions rows) (registered_migrations svc.registered) s)
              s rows h
            ∙ ap (λ r. count_registered db (versions rows) r (reads db s)) e
            ∙ ap (λ n. (counted n, reads db s)) (count_pending-none db (versions rows) all there),
      )

  -- CheckReady answers no error only where every registered migration is applied and no row is dirty.
  pub check_ready-IsDone :
      (svc : Service) (s : S) → (check_ready db svc s).0 ≡ none → IsDone db laws svc s
  unfolding check_ready count_registered counted
  check_ready-IsDone svc s n =
      let continue : List Row → S → Option MigrateError × S =
        λ rows s. count_registered db (versions rows) (registered_migrations svc.registered) s in
      let (rows, h) = checked-Started db svc continue s n in
      elim (Result-cases (registered_migrations svc.registered)) [
        | inr (x, e) ↦ ground (
          arith,
          n,
          ap (λ r. r.0)
              (Started-checked db svc continue s rows h
                ∙ ap (λ r. count_registered db (versions rows) r (reads db s)) e),
        )
        | inl (all, e) ↦
            let counts : counted (count_pending (versions rows) all) ≡ none =
              sym (
                ap (λ r. r.0)
                  (Started-checked db svc continue s rows h
                    ∙ ap (λ r. count_registered db (versions rows) r (reads db s)) e))
              ∙ n in
            (
              all,
              e,
              applied_rows svc s rows all h (
                  count_pending-all db (versions rows) all
                    (counted-none (count_pending (versions rows) all) counts)),
              λ k. Started-clean db laws svc s rows k h,
            )
      ]

  -- Where the SQL of every registered Up leaves the tracking table alone and does not end the
  -- transaction, and RunPending answers no error, every registered migration is applied and no row is
  -- dirty; and then a second RunPending whose reads succeed runs nothing but the reads and answers no
  -- error, as does CheckReady.
  pub run_pending-once :
      (svc : Service) (s : S) (marked rows : List Row)
      → AreSafe db laws svc
      → (run_pending db svc s).0 ≡ none
      → (db.get_dirty (run_pending db svc s).1).0 ≡ some marked
      → (db.get_applied (db.get_dirty (run_pending db svc s).1).1).0 ≡ some rows
      → IsDone db laws svc (run_pending db svc s).1
        × (run_pending db svc (run_pending db svc s).1 ≡ (none, reads db (run_pending db svc s).1))
        × (check_ready db svc (run_pending db svc s).1 ≡ (none, reads db (run_pending db svc s).1))
  unfolding run_pending
  run_pending-once svc s marked rows safe n d a =
      let done = run_pending-IsDone db laws svc s safe n in
      let (first, h) =
        checked-Started db svc
          (λ rows s. apply_registered db (versions rows) (registered_migrations svc.registered) s) s
          n in
      let (again, ready) =
        run_pending_done svc (run_pending db svc s).1 marked rows done h.is_usable d a in
      (done, again, ready)

  blocked :
      (svc : Service) (continue : List Row → S → Option MigrateError × S) (s : S) (v : String)
      → laws.row s v ≡ some true
      → ((checked db svc continue s).0 ≢ none)
        × ((k : String) → laws.row (checked db svc continue s).1 k ≡ laws.row s k)
  unfolding checked
  blocked svc continue s v d = elim (Option-cases (usable svc)) [
    | inr (e, unusable) ↦ ((λ n. ground (arith, n, unusable)), λ k. ground (arith, unusable))
    | inl free ↦ rw (checked, free) (read (db.get_dirty s) refl)
  ]
    where
      read :
          (q : Option (List Row) × S)
          → q ≡ db.get_dirty s
          → ((no_dirty db continue q).0 ≢ none)
            × ((k : String) → laws.row (no_dirty db continue q).1 k ≡ laws.row s k)
      read (none, t) e = ((λ n. cc), λ k. ap (λ x. laws.row x.1 k) e ∙ laws.get_dirty_row s k)
      read (some (r ∷ rows), t) e =
          ((λ n. cc), λ k. ap (λ x. laws.row x.1 k) e ∙ laws.get_dirty_row s k)
      read (some [], t) e = ground (arith, laws.get_dirty_rows s [] v (sym (ap (λ x. x.0) e)), d)

  -- While a version is dirty, RunPending, Down and CheckReady answer an error, and no row changes.
  pub dirty_blocks :
      (svc : Service) (n : ℤ) (s : S) (v : String)
      → laws.row s v ≡ some true
      → (((run_pending db svc s).0 ≢ none)
          × ((k : String) → laws.row (run_pending db svc s).1 k ≡ laws.row s k))
        × (((down db svc n s).0 ≢ none)
            × ((k : String) → laws.row (down db svc n s).1 k ≡ laws.row s k))
        × (((check_ready db svc s).0 ≢ none)
            × ((k : String) → laws.row (check_ready db svc s).1 k ≡ laws.row s k))
  unfolding run_pending down check_ready
  dirty_blocks svc n s v d = (
    blocked svc
        (λ rows s. apply_registered db (versions rows) (registered_migrations svc.registered) s) s v
        d,
    blocked svc
        (λ rows s.
          revert_registered db (take (pos_part n) (reverse rows))
            (registered_migrations svc.registered) s)
        s v d,
    blocked svc
        (λ rows s. count_registered db (versions rows) (registered_migrations svc.registered) s) s v
        d,
  )
