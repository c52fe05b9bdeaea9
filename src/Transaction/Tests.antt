-- ===== src/Transaction/Tests.antt =====
-- A database that is one number, and the theorem at it.
use gas.Prelude.{ℕ, Bool, true, false, ◌≡◌, refl, none, some}
use gas.Transaction.{
  Driver, Service, FnEnd, fn_returned, returned, fn_failed, with_tx, with_pgx_tx, begin_tx, finish,
  rollback_err,
}
use gas.Transaction.Atomicity.{IsTransactional, AllOrNothing, Ended, with_tx-AllOrNothing}

pub record Number : Type 0 where
  pub durable : ℕ
  pub written : ℕ
  pub is_open : Bool

abbrev driver : Driver Number
driver = record {
  begin = λ s. (none, record { durable = s.durable; written = s.durable; is_open = true });
  commit = λ s. (none, record { durable = s.written; written = s.written; is_open = false });
  rollback = λ s. (none, record { durable = s.durable; written = s.durable; is_open = false });
}

abbrev laws : IsTransactional driver ℕ
laws = record {
  durable = λ s. s.durable;
  written = λ s. s.written;
  is_open = λ s. s.is_open;
  begin_durable = λ s. refl;
  begin_err = λ s e h. cc;
  commit_ok = λ s h. refl;
  commit_ends = λ s h. refl;
  rollback_durable = λ s. refl;
  rollback_ends = λ s h. refl;
}

abbrev service : Service
service = record { closed = false; has_db = true; has_pool = true }

abbrev five : Number
five = record { durable = 5; written = 5; is_open = false }

-- It writes 6, and fails.
abbrev failing : Number → FnEnd × Number
failing s = (fn_returned (some 1), record { durable = s.durable; written = 6; is_open = s.is_open })

rolled_back : with_tx driver service failing five ≡ (returned (some (fn_failed 1)), five)
unfolding with_tx begin_tx finish rollback_err
rolled_back = refl

with_tx-AllOrNothing_example :
    (AllOrNothing driver laws 5 6 (with_tx driver service failing five)
      × Ended driver laws (with_tx driver service failing five))
    × (AllOrNothing driver laws 5 6 (with_pgx_tx driver service failing five)
        × Ended driver laws (with_pgx_tx driver service failing five))
with_tx-AllOrNothing_example =
    with_tx-AllOrNothing driver laws service failing five (λ v. refl) refl
