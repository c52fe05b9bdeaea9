-- ===== src/Transaction/Atomicity.antt =====
-- A transaction is all or nothing, and is ended.
use gas.Prelude.{ℕ, Bool, true, false, ◌≡◌, refl, ◌∙◌, Option, none, some}
use gas.Transaction.{
  DriverError, tx_done, other, Driver, Service, joined, commit_failed, begin_failed, FnEnd,
  fn_returned, fn_panicked, Outcome, returned, panicked, rollback_err, commit_err, join, begin_tx,
  begin_pgx_tx, finish, run_in, with_tx, with_pgx_tx,
}

-- What database/sql and pgx document: what is durable in the database, what the open transaction has
-- written over it, and whether one is open. A commit that answers no error makes it durable and ends
-- the transaction; one that answers an error may or may not have. A rollback makes nothing durable, and
-- ends the transaction where it answers no error, or that the transaction is done.
pub record IsTransactional {S : Type 0} (driver : Driver S) (V : Type 0) : Type 0 where
  pub durable : S → V
  pub written : S → V
  pub is_open : S → Bool
  pub begin_durable : (s : S) → durable (driver.begin s).1 ≡ durable s
  pub begin_err :
      (s : S) (e : ℕ) → (driver.begin s).0 ≡ some e → is_open (driver.begin s).1 ≡ is_open s
  pub commit_ok : (s : S) → (driver.commit s).0 ≡ none → durable (driver.commit s).1 ≡ written s
  pub commit_ends : (s : S) → (driver.commit s).0 ≡ none → is_open (driver.commit s).1 ≡ false
  pub rollback_durable : (s : S) → durable (driver.rollback s).1 ≡ durable s
  pub rollback_ends :
      (s : S) → rollback_err (driver.rollback s).0 ≡ none → is_open (driver.rollback s).1 ≡ false

module _ {S V : Type 0} (driver : Driver S) (laws : IsTransactional driver V) where
  -- What a run leaves of a database that held `before`, where fn has written `after`.
  abbrev pub AllOrNothing : V → V → Outcome × S → Type 0
  AllOrNothing before after (returned none, s) = laws.durable s ≡ after
  AllOrNothing before after (returned (some (commit_failed e)), s) = Unit
  AllOrNothing before after (returned (some e), s) = laws.durable s ≡ before
  AllOrNothing before after (panicked p rb, s) = laws.durable s ≡ before

  -- No transaction is open, unless an error of the commit or the rollback says otherwise.
  abbrev pub Ended : Outcome × S → Type 0
  Ended (returned (some (commit_failed e)), s) = Unit
  Ended (returned (some (joined e rb)), s) = Unit
  Ended (panicked p (some rb), s) = Unit
  Ended (panicked p none, s) = laws.is_open s ≡ false
  Ended (returned e, s) = laws.is_open s ≡ false

  joined-Ended :
      (e : ℕ) (rb : Option DriverError) (s : S)
      → (rb ≡ none → laws.is_open s ≡ false)
      → Ended (returned (some (join e rb)), s)
  unfolding join
  joined-Ended e none s h = h refl
  joined-Ended e (some x) s h = tt

  panicked-Ended :
      (p : ℕ) (rb : Option DriverError) (s : S)
      → (rb ≡ none → laws.is_open s ≡ false)
      → Ended (panicked p rb, s)
  panicked-Ended p none s h = h refl
  panicked-Ended p (some x) s h = tt

  commit-Ended :
      (c : Option DriverError) (s : S)
      → (c ≡ none → laws.is_open s ≡ false)
      → Ended (returned (commit_err c), s)
  unfolding commit_err
  commit-Ended none s h = h refl
  commit-Ended (some e) s h = tt

  joined-AllOrNothing :
      (before after : V) (e : ℕ) (rb : Option DriverError) (s : S)
      → laws.durable s ≡ before
      → AllOrNothing before after (returned (some (join e (rollback_err rb))), s)
  unfolding join rollback_err
  joined-AllOrNothing before after e none s h = h
  joined-AllOrNothing before after e (some tx_done) s h = h
  joined-AllOrNothing before after e (some (other x)) s h = h

  commit-AllOrNothing :
      (before after : V) (c : Option DriverError) (s : S)
      → (c ≡ none → laws.durable s ≡ after)
      → AllOrNothing before after (returned (commit_err c), s)
  unfolding commit_err
  commit-AllOrNothing before after none s h = h refl
  commit-AllOrNothing before after (some e) s h = tt

  finish-AllOrNothing :
      (before : V) (end : FnEnd) (s : S)
      → laws.durable s ≡ before
      → AllOrNothing before (laws.written s) (finish driver (end, s))
        × Ended (finish driver (end, s))
  unfolding finish
  finish-AllOrNothing before (fn_panicked p) s h = (
    laws.rollback_durable s ∙ h,
    panicked-Ended p (rollback_err (driver.rollback s).0) (driver.rollback s).1
        (laws.rollback_ends s),
  )
  finish-AllOrNothing before (fn_returned (some e)) s h = (
    joined-AllOrNothing before (laws.written s) e (driver.rollback s).0 (driver.rollback s).1
        (laws.rollback_durable s ∙ h),
    joined-Ended e (rollback_err (driver.rollback s).0) (driver.rollback s).1
        (laws.rollback_ends s),
  )
  finish-AllOrNothing before (fn_returned none) s h = (
    commit-AllOrNothing before (laws.written s) (driver.commit s).0 (driver.commit s).1
        (laws.commit_ok s),
    commit-Ended (driver.commit s).0 (driver.commit s).1 (laws.commit_ends s),
  )

  run_in-AllOrNothing :
      (fn : S → FnEnd × S) (before : V) (u : S)
      → ((v : S) → laws.durable (fn v).1 ≡ laws.durable v)
      → laws.durable u ≡ before
      → AllOrNothing before (laws.written (fn u).1) (run_in driver fn (none, u))
        × Ended (run_in driver fn (none, u))
  unfolding run_in
  run_in-AllOrNothing fn before u quiet h =
      finish-AllOrNothing before (fn u).0 (fn u).1 (quiet u ∙ h)

  opened :
      (fn : S → FnEnd × S) (s : S) (e : Option ℕ)
      → (driver.begin s).0 ≡ e
      → ((v : S) → laws.durable (fn v).1 ≡ laws.durable v)
      → laws.is_open s ≡ false
      → AllOrNothing (laws.durable s) (laws.written (fn (driver.begin s).1).1) (
          run_in driver fn
            (elim e [ none ↦ none | some x ↦ some (begin_failed x) ], (driver.begin s).1))
        × Ended (
            run_in driver fn
              (elim e [ none ↦ none | some x ↦ some (begin_failed x) ], (driver.begin s).1))
  unfolding run_in
  opened fn s none b quiet shut =
      run_in-AllOrNothing fn (laws.durable s) (driver.begin s).1 quiet (laws.begin_durable s)
  opened fn s (some e) b quiet shut = (laws.begin_durable s, laws.begin_err s e b ∙ shut)

  sql-AllOrNothing :
      (closed has_db has_pool : Bool) (fn : S → FnEnd × S) (s : S)
      → ((v : S) → laws.durable (fn v).1 ≡ laws.durable v)
      → laws.is_open s ≡ false
      → AllOrNothing
          (laws.durable s)
          (laws.written (fn (driver.begin s).1).1)
          (with_tx driver (record { closed = closed; has_db = has_db; has_pool = has_pool }) fn s)
        × Ended
            (with_tx driver (record { closed = closed; has_db = has_db; has_pool = has_pool }) fn s)
  unfolding with_tx begin_tx run_in
  sql-AllOrNothing true has_db has_pool fn s quiet shut = (refl, shut)
  sql-AllOrNothing false false has_pool fn s quiet shut = (refl, shut)
  sql-AllOrNothing false true has_pool fn s quiet shut =
      opened fn s (driver.begin s).0 refl quiet shut

  pgx-AllOrNothing :
      (closed has_db has_pool : Bool) (fn : S → FnEnd × S) (s : S)
      → ((v : S) → laws.durable (fn v).1 ≡ laws.durable v)
      → laws.is_open s ≡ false
      → AllOrNothing (laws.durable s) (laws.written (fn (driver.begin s).1).1) (
          with_pgx_tx driver
            (record { closed = closed; has_db = has_db; has_pool = has_pool })
            fn
            s)
        × Ended (
            with_pgx_tx driver
              (record { closed = closed; has_db = has_db; has_pool = has_pool })
              fn
              s)
  unfolding with_pgx_tx begin_pgx_tx run_in
  pgx-AllOrNothing true has_db has_pool fn s quiet shut = (refl, shut)
  pgx-AllOrNothing false has_db false fn s quiet shut = (refl, shut)
  pgx-AllOrNothing false has_db true fn s quiet shut =
      opened fn s (driver.begin s).0 refl quiet shut

  -- Where fn does not end the transaction itself, WithTx and WithPgxTx leave what fn wrote durable if
  -- they answer no error, and the database as it was if they answer an error or panic, except for a
  -- commit that answers an error. No transaction is left open, unless the commit or the rollback fails
  -- and its error is answered, or logged where fn panics.
  pub with_tx-AllOrNothing :
      (svc : Service) (fn : S → FnEnd × S) (s : S)
      → ((v : S) → laws.durable (fn v).1 ≡ laws.durable v)
      → laws.is_open s ≡ false
      → (AllOrNothing
            (laws.durable s)
            (laws.written (fn (driver.begin s).1).1)
            (with_tx driver svc fn s)
          × Ended (with_tx driver svc fn s))
        × (AllOrNothing
              (laws.durable s)
              (laws.written (fn (driver.begin s).1).1)
              (with_pgx_tx driver svc fn s)
            × Ended (with_pgx_tx driver svc fn s))
  with_tx-AllOrNothing svc fn s quiet shut = (
    sql-AllOrNothing svc.closed svc.has_db svc.has_pool fn s quiet shut,
    pgx-AllOrNothing svc.closed svc.has_db svc.has_pool fn s quiet shut,
  )
