-- ===== src/Migrate/Run.antt =====
-- RunPending, Down, CheckReady and ClearDirty, over the database as a parameter.
use mathlib.Core.List.{reverse}
use gas.Prelude.{
  ℕ, zero, suc, String, string_eq, string_order, Bool, true, false, not, Option, none, some, List,
  [], ◌∷◌, if◌then◌else◌, map, take, contains, ℤ, pos_part, find_by,
}
use gas.Migrate.{
  Migration, Registered, MigrateError, Result, closed, not_initialized, query_failed, dirty,
  not_registered, not_dirty, pending_migrations, begin_failed, up_failed, record_failed,
  commit_failed, down_failed, remove_failed, ok, err, registered_migrations,
}

-- A row of the tracking table
pub record Row : Type 0 where
  pub version : String
  pub is_dirty : Bool

-- The queries of `querier`, and the transactions of database/sql, over the states `S` of the
-- connections. A call that fails is `false`, or `none`.
pub record Database (S : Type 0) : Type 0 where
  pub get_applied : S → Option (List Row) × S
  pub get_dirty : S → Option (List Row) × S
  pub begin : S → Bool × S
  pub exec : String → S → Bool × S
  pub mark_applied : Migration → S → Bool × S
  pub remove : String → S → Bool × S
  pub commit : S → Bool × S
  pub rollback : S → S
  pub mark_dirty : Migration → S → Bool × S

abbrev pub versions : List Row → List String
versions rows = map (λ r. r.version) rows

pub record Service : Type 0 where
  pub registered : Registered
  pub is_closed : Bool
  pub is_initialized : Bool

-- Go on where there is no error.
abbrev pub chain :
    {S : Type 0} → Option MigrateError × S → (S → Option MigrateError × S) → Option MigrateError × S
chain (none, s) f = f s
chain (some e, s) f = (some e, s)

-- usable
unfoldable pub usable : Service → Option MigrateError
usable svc =
    if svc.is_closed
    then some closed
    else (if not svc.is_initialized then some not_initialized else none)

unfoldable pub count_pending : List String → List Migration → ℕ
count_pending applied [] = 0
count_pending applied (m ∷ ms) =
    if contains applied m.version then count_pending applied ms else suc (count_pending applied ms)

unfoldable pub counted : ℕ → Option MigrateError
counted zero = none
counted (suc n) = some (pending_migrations (suc n))

module _ {S : Type 0} (db : Database S) where
  -- The ends of execUp and recordAndCommit on an error: the failed marking is in the message only.
  abbrev pub fail_dirty : MigrateError → Migration → S → Option MigrateError × S
  fail_dirty e m s = (some e, (db.mark_dirty m s).1)

  unfoldable pub committed : Migration → Bool × S → Option MigrateError × S
  committed m (true, s) = (none, s)
  committed m (false, s) = fail_dirty (commit_failed m.version) m s

  unfoldable pub recorded : Migration → Bool × S → Option MigrateError × S
  unfolding committed
  recorded m (true, s) = committed m (db.commit s)
  recorded m (false, s) = fail_dirty (record_failed m.version) m (db.rollback s)

  unfoldable pub executed : Migration → Bool × S → Option MigrateError × S
  unfolding recorded
  executed m (true, s) = recorded m (db.mark_applied m s)
  executed m (false, s) = fail_dirty (up_failed m.version) m (db.rollback s)

  unfoldable pub begun : Migration → Bool × S → Option MigrateError × S
  unfolding executed
  begun m (true, s) = executed m (db.exec m.up s)
  begun m (false, s) = (some (begin_failed m.version), s)

  unfoldable pub apply_up : Migration → S → Option MigrateError × S
  unfolding begun
  apply_up m s = begun m (db.begin s)

  -- The loop of RunPending
  unfoldable pub apply_pending : List String → List Migration → S → Option MigrateError × S
  unfolding apply_up
  apply_pending applied [] s = (none, s)
  apply_pending applied (m ∷ ms) s =
      if contains applied m.version
      then apply_pending applied ms s
      else chain (apply_up m s) (apply_pending applied ms)

  unfoldable pub with_rows :
      (List Row → S → Option MigrateError × S) → Option (List Row) × S → Option MigrateError × S
  with_rows continue (none, s) = (some query_failed, s)
  with_rows continue (some rows, s) = continue rows s

  unfoldable pub no_dirty :
      (List Row → S → Option MigrateError × S) → Option (List Row) × S → Option MigrateError × S
  unfolding with_rows
  no_dirty continue (none, s) = (some query_failed, s)
  no_dirty continue (some (r ∷ rows), s) = (some (dirty (versions (r ∷ rows))), s)
  no_dirty continue (some [], s) = with_rows continue (db.get_applied s)

  -- The start that RunPending, Down and CheckReady share: nothing runs while a version is dirty.
  -- `continue` gets the applied rows.
  unfoldable pub checked :
      Service → (List Row → S → Option MigrateError × S) → S → Option MigrateError × S
  unfolding usable no_dirty
  checked svc continue s = elim (usable svc) [
    | some e ↦ (some e, s)
    | none ↦ no_dirty continue (db.get_dirty s)
  ]

  unfoldable pub apply_registered :
      List String → Result (List Migration) → S → Option MigrateError × S
  unfolding apply_pending
  apply_registered applied (err e) s = (some e, s)
  apply_registered applied (ok all) s = apply_pending applied all s

  unfoldable pub run_pending : Service → S → Option MigrateError × S
  unfolding checked apply_registered
  run_pending svc =
      checked svc
        (λ rows s. apply_registered (versions rows) (registered_migrations svc.registered) s)

  unfoldable pub down_committed : Migration → Bool × S → Option MigrateError × S
  down_committed m (true, s) = (none, s)
  down_committed m (false, s) = (some (commit_failed m.version), s)

  unfoldable pub removed : Migration → Bool × S → Option MigrateError × S
  unfolding down_committed
  removed m (true, s) = down_committed m (db.commit s)
  removed m (false, s) = (some (remove_failed m.version), db.rollback s)

  unfoldable pub reverted : Migration → Bool × S → Option MigrateError × S
  unfolding removed
  reverted m (true, s) = removed m (db.remove m.version s)
  reverted m (false, s) = (some (down_failed m.version), db.rollback s)

  unfoldable pub down_begun : Migration → Bool × S → Option MigrateError × S
  unfolding reverted
  down_begun m (true, s) = reverted m (db.exec m.down s)
  down_begun m (false, s) = (some (begin_failed m.version), s)

  unfoldable pub apply_down : Migration → S → Option MigrateError × S
  unfolding down_begun
  apply_down m s = down_begun m (db.begin s)

  -- The loop of Down, over the last `count` rows backward
  unfoldable pub revert_all : List Migration → List Row → S → Option MigrateError × S
  unfolding apply_down
  revert_all all [] s = (none, s)
  revert_all all (r ∷ rows) s = elim (find_by (λ m. m.version) r.version all) [
    | none ↦ (some (not_registered r.version), s)
    | some m ↦ chain (apply_down m s) (revert_all all rows)
  ]

  unfoldable pub revert_registered :
      List Row → Result (List Migration) → S → Option MigrateError × S
  unfolding revert_all
  revert_registered rows (err e) s = (some e, s)
  revert_registered rows (ok all) s = revert_all all rows s

  -- `min(n, len(applied))` rows from the end; a negative `n` takes none.
  unfoldable pub down : Service → ℤ → S → Option MigrateError × S
  unfolding checked revert_registered
  down svc n = checked svc (λ rows s.
      revert_registered (take (pos_part n) (reverse rows)) (registered_migrations svc.registered) s)

  unfoldable pub count_registered :
      List String → Result (List Migration) → S → Option MigrateError × S
  unfolding count_pending counted
  count_registered applied (err e) s = (some e, s)
  count_registered applied (ok all) s = (counted (count_pending applied all), s)

  unfoldable pub check_ready : Service → S → Option MigrateError × S
  unfolding checked count_registered
  check_ready svc =
      checked svc
        (λ rows s. count_registered (versions rows) (registered_migrations svc.registered) s)

  unfoldable pub clear_committed : String → Bool × S → Option MigrateError × S
  clear_committed v (true, s) = (none, s)
  clear_committed v (false, s) = (some (commit_failed v), s)

  unfoldable pub cleared : String → Bool × S → Option MigrateError × S
  unfolding clear_committed
  cleared v (true, s) = clear_committed v (db.commit s)
  cleared v (false, s) = (some (remove_failed v), db.rollback s)

  unfoldable pub clear_begun : String → Bool × S → Option MigrateError × S
  unfolding cleared
  clear_begun v (true, s) = cleared v (db.remove v s)
  clear_begun v (false, s) = (some (begin_failed v), s)

  unfoldable pub clear_found : String → Option (List Row) × S → Option MigrateError × S
  unfolding clear_begun
  clear_found v (none, s) = (some query_failed, s)
  clear_found v (some rows, s) =
      if contains (versions rows) v then clear_begun v (db.begin s) else (some (not_dirty v), s)

  unfoldable pub clear_dirty : Service → String → S → Option MigrateError × S
  unfolding usable clear_found
  clear_dirty svc v s = elim (usable svc) [
    | some e ↦ (some e, s)
    | none ↦ clear_found v (db.get_dirty s)
  ]
