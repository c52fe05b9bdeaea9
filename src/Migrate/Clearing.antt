-- ===== src/Migrate/Clearing.antt =====
-- ClearDirty: it takes away a dirty row, and no other.
use gas.Prelude.{
  String, string_eq, string_order, Bool, true, false, Option, none, some, List, [], if◌then◌else◌,
  ◌==◌, contains, ◌≡◌, ◌≢◌, inl, inr, refl, sym, ap, ◌∙◌, arith, Bool-cases, Option-cases,
}
use gas.Migrate.{MigrateError, not_dirty, query_failed}
use gas.Migrate.Run.{
  Row, Database, Service, versions, usable, cleared, clear_begun, clear_found, clear_dirty,
}
use gas.Migrate.Tracking.{
  Tracks, is_dirty_row, InTx, same, after-begin, after-remove, after-rollback,
}
use gas.Migrate.Down.{Gone, Gone-kept, clear_committed-Gone}

module _ {S : Type 0} (db : Database S) (laws : Tracks db) where
  cleared-Gone :
      (v : String) (s u : S)
      → InTx db laws s (same db laws) [] u
      → (c : Bool × S) → c ≡ db.remove v u
      → Gone db laws v s (cleared db v c)
  unfolding cleared
  cleared-Gone v s u tx (true, t) e =
      clear_committed-Gone db laws v s t (after-remove db laws v [] s u t e tx) (db.commit t) refl
  cleared-Gone v s u tx (false, t) e =
      Gone-kept db laws v s (db.rollback t) _
        (after-rollback db laws s u false t (db.remove v u) e tx.kept
          (laws.remove_kept v u tx.opened)).0

  clear_begun-Gone :
      (v : String) (s : S) → (c : Bool × S) → c ≡ db.begin s → Gone db laws v s (clear_begun db v c)
  unfolding clear_begun
  clear_begun-Gone v s (true, t) e =
      cleared-Gone v s t (after-begin db laws s t e) (db.remove v t) refl
  clear_begun-Gone v s (false, t) e =
      Gone-kept db laws v s t _ (λ k. ap (λ x. laws.row x.1 k) e ∙ (laws.begin_kept s).0 k)

  -- Reads in front change no row.
  Gone-read :
      (v : String) (s t : S) (r : Option MigrateError × S)
      → ((k : String) → laws.row t k ≡ laws.row s k)
      → Gone db laws v t r
      → Gone db laws v s r
  Gone-read v s t (none, u) kept gone = λ k. gone k ∙ ap (λ o. if v == k then none else o) (kept k)
  Gone-read v s t (some e, u) kept (others, own) =
      ((λ k apart. others k apart ∙ kept k), λ not_commit. own not_commit ∙ kept v)

  -- A version that is not dirty
  abbrev pub Refused : String → S → Option MigrateError × S → Type 0
  Refused v s r = (r.0 ≢ none) × ((k : String) → laws.row r.1 k ≡ laws.row s k)

  abbrev pub Cleared : String → S → Option MigrateError × S → Type 0
  Cleared v s r = Gone db laws v s r × (is_dirty_row (laws.row s v) ≡ false → Refused v s r)

  refused :
      (v : String) (s t : S) (e : MigrateError)
      → ((k : String) → laws.row t k ≡ laws.row s k)
      → Cleared v s (some e, t)
  refused v s t e kept = (Gone-kept db laws v s t e kept, λ clean. ((λ n. cc), kept))

  clear_found-Cleared :
      (v : String) (s : S) (c : Option (List Row) × S)
      → c ≡ db.get_dirty s
      → Cleared v s (clear_found db v c)
  unfolding clear_found
  clear_found-Cleared v s (none, t) e =
      refused v s t query_failed (λ k. ap (λ x. laws.row x.1 k) e ∙ laws.get_dirty_row s k)
  clear_found-Cleared v s (some rows, t) e =
      let known : contains (versions rows) v ≡ is_dirty_row (laws.row s v) =
        laws.get_dirty_rows s rows v (sym (ap (λ x. x.0) e)) in
      let kept : (k : String) → laws.row t k ≡ laws.row s k =
        λ k. ap (λ x. laws.row x.1 k) e ∙ laws.get_dirty_row s k in
      elim (Bool-cases (contains (versions rows) v)) [
        | inl there ↦ rw (there) (
          Gone-read v s t _ kept (clear_begun-Gone v t (db.begin t) refl),
          λ clean. ground (arith, there, known, clean),
        )
        | inr missing ↦ rw (missing) (refused v s t (not_dirty v) kept)
      ]

  -- ClearDirty without an error takes the version's row away, and no other; at an error that is not
  -- the commit's every row is as it was. It answers no error only for a dirty version: for any other
  -- it answers an error and changes no row.
  pub clear_dirty-Cleared :
      (svc : Service) (v : String) (s : S) → Cleared v s (clear_dirty db svc v s)
  unfolding clear_dirty
  clear_dirty-Cleared svc v s = elim (Option-cases (usable svc)) [
    | inr (e, unusable) ↦ rw (clear_dirty, unusable) (refused v s s e (λ k. refl))
    | inl free ↦ rw (clear_dirty, free) (clear_found-Cleared v s (db.get_dirty s) refl)
  ]
