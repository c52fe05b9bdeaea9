-- ===== src/Migrate/Start.antt =====
-- The start that RunPending, Down and CheckReady share, and the loop where nothing is pending.
use gas.Prelude.{
  String, string_eq, string_order, true, Option, none, some, List, [], ◌∷◌, contains, All, ◌≡◌, inl,
  inr, refl, sym, ap, ◌∙◌, arith, Bool-cases, Option-cases, beq_refl,
}
use gas.Migrate.{Migration, MigrateError}
use gas.Migrate.Run.{
  Row, Database, Service, versions, apply_pending, checked, usable, no_dirty, with_rows,
  count_pending,
}

module _ {S : Type 0} (db : Database S) where
  -- The connection after the two reads that the operations start with
  abbrev pub reads : S → S
  reads s = (db.get_applied (db.get_dirty s).1).1

  -- What it takes to get to the loop
  pub record Started (svc : Service) (s : S) (rows : List Row) : Type 0 where
    pub is_usable : usable svc ≡ none
    pub none_dirty : (db.get_dirty s).0 ≡ some []
    pub has_rows : (db.get_applied (db.get_dirty s).1).0 ≡ some rows

  pub Started-checked :
      (svc : Service) (continue : List Row → S → Option MigrateError × S) (s : S) (rows : List Row)
      → Started svc s rows
      → checked db svc continue s ≡ continue rows (reads s)
  unfolding checked no_dirty with_rows
  Started-checked svc continue s rows h =
      let read : db.get_dirty s ≡ (some [], (db.get_dirty s).1) =
        λ i. (h.none_dirty i, (db.get_dirty s).1) in
      let listed : db.get_applied (db.get_dirty s).1 ≡ (some rows, reads s) =
        λ i. (h.has_rows i, reads s) in
      simp (checked, h.is_usable)
        (ap (no_dirty db continue) read ∙ ap (with_rows db continue) listed)

  pub checked-Started :
      (svc : Service) (continue : List Row → S → Option MigrateError × S) (s : S)
      → (checked db svc continue s).0 ≡ none
      → (rows : List Row) × Started svc s rows
  unfolding checked
  checked-Started svc continue s h = elim (Option-cases (usable svc)) [
    | inr (e, unusable) ↦ ground (arith, unusable)
    | inl free ↦ after_dirty (db.get_dirty s) refl free (ground (arith, free))
  ]
    where
      after_applied :
          (d : Option (List Row) × S)
          → d ≡ db.get_applied (db.get_dirty s).1
          → usable svc ≡ none
          → (db.get_dirty s).0 ≡ some []
          → (with_rows db continue d).0 ≡ none
          → (rows : List Row) × Started svc s rows
      after_applied (none, t) e free clean k = ground (arith, k)
      after_applied (some rows, t) e free clean k =
          (rows, record { is_usable = free; none_dirty = clean; has_rows = sym (ap (λ x. x.0) e) })

      after_dirty :
          (d : Option (List Row) × S)
          → d ≡ db.get_dirty s
          → usable svc ≡ none
          → (no_dirty db continue d).0 ≡ none
          → (rows : List Row) × Started svc s rows
      after_dirty (none, t) e free k = ground (arith, k)
      after_dirty (some (r ∷ rows), t) e free k = ground (arith, k)
      after_dirty (some [], t) e free k =
          let at : t ≡ (db.get_dirty s).1 = ap (λ x. x.1) e in
          after_applied (db.get_applied t) (ap db.get_applied at) free (sym (ap (λ x. x.0) e)) k

  pub contains_head : (r : Row) (rows : List Row) → contains (versions (r ∷ rows)) r.version ≡ true
  contains_head r rows = ground (arith, beq_refl r.version)

  -- Without a pending migration the loop does nothing.
  pub apply_pending-none :
      (applied : List String) (ms : List Migration) (s : S)
      → All (λ m. contains applied m.version ≡ true) ms
      → apply_pending db applied ms s ≡ (none, s)
  unfolding apply_pending
  apply_pending-none applied [] s h = refl
  apply_pending-none applied (m ∷ ms) s h =
      simp (apply_pending, h.0) (apply_pending-none applied ms s h.1)

  pub count_pending-none :
      (applied : List String) (ms : List Migration)
      → All (λ m. contains applied m.version ≡ true) ms
      → count_pending applied ms ≡ 0
  unfolding count_pending
  count_pending-none applied [] h = refl
  count_pending-none applied (m ∷ ms) h =
      simp (count_pending, h.0) (count_pending-none applied ms h.1)

  pub count_pending-all :
      (applied : List String) (ms : List Migration)
      → count_pending applied ms ≡ 0
      → All (λ m. contains applied m.version ≡ true) ms
  unfolding count_pending
  count_pending-all applied [] h = tt
  count_pending-all applied (m ∷ ms) h = elim (Bool-cases (contains applied m.version)) [
    | inl there ↦ (there, count_pending-all applied ms (ground (arith, there, h)))
    | inr new ↦ ground (arith, new, h)
  ]
