-- ===== src/Transaction.antt =====
-- database/tx.go: WithTx and WithPgxTx. database/sql and pgx are the parameter `Driver`, over the
-- states `S` of the connections; the caller's function is the parameter `fn`, which may panic.
pub mod Atomicity
pub mod Tests
use gas.Prelude.{ℕ, Bool, true, false, not, Option, none, some, if◌then◌else◌}

-- `tx_done` is sql.ErrTxDone, and pgx.ErrTxClosed.
pub data DriverError : Type 0 where
  tx_done : DriverError
  other : ℕ → DriverError

pub record Driver (S : Type 0) : Type 0 where
  pub begin : S → Option ℕ × S
  pub commit : S → Option DriverError × S
  pub rollback : S → Option DriverError × S

pub record Service : Type 0 where
  pub closed : Bool
  pub has_db : Bool
  pub has_pool : Bool

-- `joined` is fn's error with that of the rollback.
pub data TxError : Type 0 where
  service_closed not_initialized non_pgx_mode : TxError
  begin_failed fn_failed : ℕ → TxError
  joined : ℕ → DriverError → TxError
  commit_failed : DriverError → TxError

pub data FnEnd : Type 0 where
  fn_returned : Option ℕ → FnEnd
  fn_panicked : ℕ → FnEnd

-- A panic goes on, and carries here the error of the rollback that is logged with it.
pub data Outcome : Type 0 where
  returned : Option TxError → Outcome
  panicked : ℕ → Option DriverError → Outcome

-- rollbackErr, without the wrapping
unfoldable pub rollback_err : Option DriverError → Option DriverError
rollback_err none = none
rollback_err (some tx_done) = none
rollback_err (some (other e)) = some (other e)

unfoldable pub commit_err : Option DriverError → Option TxError
commit_err none = none
commit_err (some e) = some (commit_failed e)

join : ℕ → Option DriverError → TxError
join e none = fn_failed e
join e (some rb) = joined e rb

module _ {S : Type 0} (driver : Driver S) where
  -- BeginTx
  unfoldable pub begin_tx : Service → S → Option TxError × S
  begin_tx svc s =
      if svc.closed
      then (some service_closed, s)
      else if not svc.has_db
      then (some not_initialized, s)
      else (let (e, s') = driver.begin s in
          (elim e [ none ↦ none | some x ↦ some (begin_failed x) ], s'))

  -- BeginPgxTx
  unfoldable pub begin_pgx_tx : Service → S → Option TxError × S
  begin_pgx_tx svc s =
      if svc.closed
      then (some service_closed, s)
      else if not svc.has_pool
      then (some non_pgx_mode, s)
      else (let (e, s') = driver.begin s in
          (elim e [ none ↦ none | some x ↦ some (begin_failed x) ], s'))

  -- The deferred function, with what fn left.
  unfoldable pub finish : FnEnd × S → Outcome × S
  unfolding rollback_err commit_err join
  finish (fn_panicked p, s) = let (rb, s') = driver.rollback s in (panicked p (rollback_err rb), s')
  finish (fn_returned (some e), s) =
      let (rb, s') = driver.rollback s in (returned (some (join e (rollback_err rb))), s')
  finish (fn_returned none, s) = let (c, s') = driver.commit s in (returned (commit_err c), s')

  run_in : (S → FnEnd × S) → Option TxError × S → Outcome × S
  unfolding finish
  run_in fn (some e, s) = (returned (some e), s)
  run_in fn (none, s) = finish (fn s)

  unfoldable pub with_tx : Service → (S → FnEnd × S) → S → Outcome × S
  unfolding run_in begin_tx
  with_tx svc fn s = run_in fn (begin_tx svc s)

  unfoldable pub with_pgx_tx : Service → (S → FnEnd × S) → S → Outcome × S
  unfolding run_in begin_pgx_tx
  with_pgx_tx svc fn s = run_in fn (begin_pgx_tx svc s)
