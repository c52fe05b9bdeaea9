-- ===== src/Migrate/Down.antt =====
-- Down and ClearDirty: which rows they take away, and which SQL Down runs.
use gas.Prelude.{
  String, string_eq, string_order, ◌==◌, Bool, true, false, Option, none, some, List, [], ◌∷◌, ◌++◌,
  if◌then◌else◌, ◌≡◌, ◌≢◌, inl, inr, refl, ap, ◌∙◌, arith,
}
use gas.Migrate.{Migration, MigrateError, commit_failed}
use gas.Migrate.Run.{
  Database, down_committed, removed, reverted, down_begun, apply_down, clear_committed,
}
use gas.Migrate.Tracking.{
  Tracks, Kept, Done, InTx, same, taken, after-begin, after-exec, after-remove, after-commit,
  after-failed_commit, after-rollback,
}
use gas.Migrate.Apply.{OthersKept, MayRun}

module _ {S : Type 0} (db : Database S) (laws : Tracks db) where
  -- The row of `v` is gone and the others are as they were; or, at an error, all rows are as they
  -- were, unless it was the commit that failed, which may have taken the row.
  abbrev pub Gone : String → S → Option MigrateError × S → Type 0
  Gone v s (none, t) = (k : String) → laws.row t k ≡ (if v == k then none else laws.row s k)
  Gone v s (some e, t) =
      OthersKept db laws v s t × (e ≢ commit_failed v → laws.row t v ≡ laws.row s v)

  pub Gone-kept :
      (v : String) (s t : S) (e : MigrateError)
      → ((k : String) → laws.row t k ≡ laws.row s k)
      → Gone v s (some e, t)
  Gone-kept v s t e kept = ((λ k apart. kept k), λ not_commit. kept v)

  Done-others :
      (v : String) (log : List String) (s t : S)
      → Done db laws s (taken db laws v) log t
      → OthersKept db laws v s t
  Done-others v log s t done k apart = ground (arith, done.0 k, apart)

  -- The commit of ClearDirty
  pub clear_committed-Gone :
      (v : String) (s u : S)
      → InTx db laws s (taken db laws v) [] u
      → (c : Bool × S) → c ≡ db.commit u
      → Gone v s (clear_committed db v c)
  unfolding clear_committed
  clear_committed-Gone v s u tx (true, t) e =
      (after-commit db laws (taken db laws v) [] s u t e tx).0
  clear_committed-Gone v s u tx (false, t) e =
      elim (after-failed_commit db laws (taken db laws v) [] s u t e tx) [
        | inl kept ↦ ((λ k apart. kept.0 k), λ not_commit. absurd (not_commit refl))
        | inr done ↦ (Done-others v [] s t done, λ not_commit. absurd (not_commit refl))
      ]

  -- What applyDown leaves of the rows and of the SQL in force
  abbrev pub Undone : Migration → S → Option MigrateError × S → Type 0
  Undone m s (none, t) = Gone m.version s (none, t) × (laws.ran t ≡ laws.ran s ++ m.down ∷ [])
  Undone m s (some e, t) = Gone m.version s (some e, t) × MayRun db laws m m.down s e t

  Kept-Undone :
      (m : Migration) (s t : S) (e : MigrateError) → Kept db laws s t → Undone m s (some e, t)
  Kept-Undone m s t e kept = (Gone-kept m.version s t e kept.0, inl kept.1)

  down_committed-Undone :
      (m : Migration) (s u : S)
      → InTx db laws s (taken db laws m.version) (m.down ∷ []) u
      → (c : Bool × S) → c ≡ db.commit u
      → Undone m s (down_committed db m c)
  unfolding down_committed
  down_committed-Undone m s u tx (true, t) e =
      after-commit db laws (taken db laws m.version) (m.down ∷ []) s u t e tx
  down_committed-Undone m s u tx (false, t) e =
      elim (after-failed_commit db laws (taken db laws m.version) (m.down ∷ []) s u t e tx) [
        | inl kept ↦ (((λ k apart. kept.0 k), λ not_commit. absurd (not_commit refl)), inl kept.1)
        | inr done ↦ (
          (Done-others m.version (m.down ∷ []) s t done, λ not_commit. absurd (not_commit refl)),
          inr (refl, done.1),
        )
      ]

  removed-Undone :
      (m : Migration) (s u : S)
      → InTx db laws s (same db laws) (m.down ∷ []) u
      → (c : Bool × S) → c ≡ db.remove m.version u
      → Undone m s (removed db m c)
  unfolding removed
  removed-Undone m s u tx (true, t) e =
      down_committed-Undone m s t (after-remove db laws m.version (m.down ∷ []) s u t e tx)
        (db.commit t) refl
  removed-Undone m s u tx (false, t) e = Kept-Undone m s (db.rollback t) _ (
      after-rollback db laws s u false t (db.remove m.version u) e tx.kept
        (laws.remove_kept m.version u tx.opened))

  reverted-Undone :
      (m : Migration) (s u : S)
      → laws.is_safe m.down ≡ true
      → InTx db laws s (same db laws) [] u
      → (c : Bool × S) → c ≡ db.exec m.down u
      → Undone m s (reverted db m c)
  unfolding reverted
  reverted-Undone m s u safe tx (true, t) e =
      removed-Undone m s t (after-exec db laws m.down s u t safe e tx) (db.remove m.version t) refl
  reverted-Undone m s u safe tx (false, t) e = Kept-Undone m s (db.rollback t) _ (
      after-rollback db laws s u false t (db.exec m.down u) e tx.kept
        (laws.exec_kept m.down u safe tx.opened))

  down_begun-Undone :
      (m : Migration) (s : S)
      → laws.is_safe m.down ≡ true
      → (c : Bool × S) → c ≡ db.begin s
      → Undone m s (down_begun db m c)
  unfolding down_begun
  down_begun-Undone m s safe (true, t) e =
      reverted-Undone m s t safe (after-begin db laws s t e) (db.exec m.down t) refl
  down_begun-Undone m s safe (false, t) e = Kept-Undone m s t _ (
    (λ k. ap (λ x. laws.row x.1 k) e ∙ (laws.begin_kept s).0 k),
    ap (λ x. laws.ran x.1) e ∙ (laws.begin_kept s).1,
  )

  -- Reverting one migration of safe SQL runs its Down and takes its row away, and no other; where it
  -- answers an error that is not the commit's, nothing has run and its row is as it was as well.
  pub apply_down-Undone :
      (m : Migration) (s : S) → laws.is_safe m.down ≡ true → Undone m s (apply_down db m s)
  unfolding apply_down
  apply_down-Undone m s safe = down_begun-Undone m s safe (db.begin s) refl
