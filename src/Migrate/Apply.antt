-- ===== src/Migrate/Apply.antt =====
-- What one migration that is applied leaves in the tracking table, and which SQL it runs.
use gas.Prelude.{
  String, string_eq, ◌==◌, Bool, true, false, Option, none, some, [], ◌∷◌, ◌++◌, ◌≡◌, ◌≢◌, ◌⊎◌, inl,
  inr, refl, ap, ◌∙◌, arith, Bool-cases, beq_refl,
}
use gas.Migrate.{Migration, MigrateError, begin_failed, up_failed, record_failed, commit_failed}
use gas.Migrate.Run.{Database, fail_dirty, committed, recorded, executed, begun, apply_up}
use gas.Migrate.Tracking.{
  Tracks, Kept, Done, InTx, same, made_clean, after-begin, after-exec, after-mark_applied,
  after-commit, after-failed_commit, after-rollback,
}

module _ {S : Type 0} (db : Database S) (laws : Tracks db) where
  -- The rows of the other versions are as they were.
  abbrev pub OthersKept : String → S → S → Type 0
  OthersKept v s t = (k : String) → (v == k) ≡ false → laws.row t k ≡ laws.row s k

  -- The last step was to mark the version as dirty, and it is, if that succeeded.
  abbrev pub Marked : Migration → S → Type 0
  Marked m t =
      (u : S) × (t ≡ (db.mark_dirty m u).1)
      × ((db.mark_dirty m u).0 ≡ true → laws.row t m.version ≡ some true)

  -- The SQL is not in force, unless it was the commit that failed, which may have been done.
  abbrev pub MayRun : Migration → String → S → MigrateError → S → Type 0
  MayRun m sql s e t =
      (laws.ran t ≡ laws.ran s)
      ⊎ (e ≡ commit_failed m.version) × (laws.ran t ≡ laws.ran s ++ sql ∷ [])

  -- What applyUp leaves: the version applied and clean, and its Up in force; or, after an error behind
  -- the start of the transaction, a marking as dirty. The other rows are as they were.
  abbrev pub Applied : Migration → S → Option MigrateError × S → Type 0
  Applied m s (none, t) = Done db laws s (made_clean db laws m.version) (m.up ∷ []) t
  Applied m s (some e, t) =
      OthersKept m.version s t × (e ≢ begin_failed m.version → Marked m t) × MayRun m m.up s e t

  fail_dirty-Applied :
      (e : MigrateError) (m : Migration) (s u : S)
      → OthersKept m.version s u
      → MayRun m m.up s e u
      → Applied m s (fail_dirty db e m u)
  fail_dirty-Applied e m s u kept may = (
    λ k apart. elim (Bool-cases (db.mark_dirty m u).0) [
      | inl marked ↦ ground (arith, laws.mark_dirty_ok m u k marked, apart, kept k apart)
      | inr unmarked ↦ laws.mark_dirty_failed m u k unmarked ∙ kept k apart
    ],
    (λ started. (
      u,
      refl,
      λ marks. ground (arith, laws.mark_dirty_ok m u m.version marks, beq_refl m.version),
    )),
    elim may [
      | inl not_run ↦ inl (laws.mark_dirty_ran m u ∙ not_run)
      | inr (is, run) ↦ inr (is, laws.mark_dirty_ran m u ∙ run)
    ],
  )

  Kept-Applied :
      (e : MigrateError) (m : Migration) (s u : S)
      → Kept db laws s u
      → Applied m s (fail_dirty db e m u)
  Kept-Applied e m s u kept = fail_dirty-Applied e m s u (λ k apart. kept.0 k) (inl kept.1)

  committed-Applied :
      (m : Migration) (s u : S)
      → InTx db laws s (made_clean db laws m.version) (m.up ∷ []) u
      → (c : Bool × S) → c ≡ db.commit u
      → Applied m s (committed db m c)
  unfolding committed
  committed-Applied m s u tx (true, t) e = after-commit db laws _ (m.up ∷ []) s u t e tx
  committed-Applied m s u tx (false, t) e =
      elim (after-failed_commit db laws (made_clean db laws m.version) (m.up ∷ []) s u t e tx) [
        | inl kept ↦ Kept-Applied (commit_failed m.version) m s t kept
        | inr (rows, ran) ↦
            fail_dirty-Applied (commit_failed m.version) m s t
              (λ k apart. ground (arith, rows k, apart)) (inr (refl, ran))
      ]

  recorded-Applied :
      (m : Migration) (s u : S)
      → InTx db laws s (same db laws) (m.up ∷ []) u
      → (c : Bool × S) → c ≡ db.mark_applied m u
      → Applied m s (recorded db m c)
  unfolding recorded
  recorded-Applied m s u tx (true, t) e =
      committed-Applied m s t (after-mark_applied db laws m (m.up ∷ []) s u t e tx) (db.commit t)
        refl
  recorded-Applied m s u tx (false, t) e =
      Kept-Applied (record_failed m.version) m s (db.rollback t) (
        after-rollback db laws s u false t (db.mark_applied m u) e tx.kept
          (laws.mark_applied_kept m u tx.opened))

  executed-Applied :
      (m : Migration) (s u : S)
      → laws.is_safe m.up ≡ true
      → InTx db laws s (same db laws) [] u
      → (c : Bool × S) → c ≡ db.exec m.up u
      → Applied m s (executed db m c)
  unfolding executed
  executed-Applied m s u safe tx (true, t) e =
      recorded-Applied m s t (after-exec db laws m.up s u t safe e tx) (db.mark_applied m t) refl
  executed-Applied m s u safe tx (false, t) e =
      Kept-Applied (up_failed m.version) m s (db.rollback t) (
        after-rollback db laws s u false t (db.exec m.up u) e tx.kept
          (laws.exec_kept m.up u safe tx.opened))

  begun-Applied :
      (m : Migration) (s : S)
      → laws.is_safe m.up ≡ true
      → (c : Bool × S) → c ≡ db.begin s
      → Applied m s (begun db m c)
  unfolding begun
  begun-Applied m s safe (true, t) e =
      executed-Applied m s t safe (after-begin db laws s t e) (db.exec m.up t) refl
  begun-Applied m s safe (false, t) e = (
    λ k apart. ap (λ x. laws.row x.1 k) e ∙ (laws.begin_kept s).0 k,
    (λ started. absurd (started refl)),
    inl (ap (λ x. laws.ran x.1) e ∙ (laws.begin_kept s).1),
  )

  -- Applying one migration of safe SQL leaves its version applied and clean and its Up in force where
  -- it answers no error; where it answers an error other than the one for the start of the transaction,
  -- it has marked the version as dirty, unless the marking fails as well; the rows of the other versions
  -- are as they were in any case.
  pub apply_up-Applied :
      (m : Migration) (s : S) → laws.is_safe m.up ≡ true → Applied m s (apply_up db m s)
  unfolding apply_up
  apply_up-Applied m s safe = begun-Applied m s safe (db.begin s) refl
