-- ===== src/Migrate/Tracking.antt =====
-- The tracking table and the transactions: what the schema and the queries of migrate/db say, with
-- database/sql.
use gas.Prelude.{
  String, string_eq, ◌==◌, Bool, true, Option, none, some, List, [], ◌∷◌, ◌++◌, if◌then◌else◌,
  contains, append-nil, false, inl, inr, ◌≡◌, ◌⊎◌, sym, ap, ◌∙◌, subst,
}
use gas.Migrate.{Migration}
use gas.Migrate.Run.{Row, Database, versions}

abbrev pub is_row : Option Bool → Bool
is_row none = false
is_row (some b) = true

abbrev pub is_dirty_row : Option Bool → Bool
is_dirty_row none = false
is_dirty_row (some b) = b

-- `row` is the mark of a version in the table, `some true` for a dirty one, and `ran` lists the SQL of
-- migrations that is in force, in its order; `staged` and `staged_ran` are what the open transaction
-- would make of them. An INSERT or DELETE of a row concerns that version alone. SQL is safe where it
-- leaves the tracking table alone and does not end the transaction: on MySQL a DDL statement commits,
-- and is not. A commit that fails has written everything or nothing; a statement that fails changes
-- nothing.
pub record Tracks {S : Type 0} (db : Database S) : Type 0 where
  pub row : S → String → Option Bool
  pub staged : S → String → Option Bool
  pub ran : S → List String
  pub staged_ran : S → List String
  pub is_open : S → Bool
  pub is_safe : String → Bool
  pub begin_kept :
      (s : S) → ((k : String) → row (db.begin s).1 k ≡ row s k) × (ran (db.begin s).1 ≡ ran s)
  pub begin_ok :
      (s : S)
      → (db.begin s).0 ≡ true
      → ((k : String) → staged (db.begin s).1 k ≡ row s k)
        × (staged_ran (db.begin s).1 ≡ ran s)
        × (is_open (db.begin s).1 ≡ true)
  pub exec_kept :
      (sql : String) (s : S)
      → is_safe sql ≡ true
      → is_open s ≡ true
      → ((k : String) → row (db.exec sql s).1 k ≡ row s k) × (ran (db.exec sql s).1 ≡ ran s)
  pub exec_ok :
      (sql : String) (s : S)
      → is_safe sql ≡ true
      → is_open s ≡ true
      → (db.exec sql s).0 ≡ true
      → ((k : String) → staged (db.exec sql s).1 k ≡ staged s k)
        × (staged_ran (db.exec sql s).1 ≡ staged_ran s ++ sql ∷ [])
        × (is_open (db.exec sql s).1 ≡ true)
  pub mark_applied_kept :
      (m : Migration) (s : S)
      → is_open s ≡ true
      → ((k : String) → row (db.mark_applied m s).1 k ≡ row s k)
        × (ran (db.mark_applied m s).1 ≡ ran s)
  pub mark_applied_ok :
      (m : Migration) (s : S)
      → is_open s ≡ true
      → (db.mark_applied m s).0 ≡ true
      → ((k : String)
          → staged (db.mark_applied m s).1 k ≡ (if m.version == k then some false else staged s k))
        × (staged_ran (db.mark_applied m s).1 ≡ staged_ran s)
        × (is_open (db.mark_applied m s).1 ≡ true)
  pub remove_kept :
      (v : String) (s : S)
      → is_open s ≡ true
      → ((k : String) → row (db.remove v s).1 k ≡ row s k) × (ran (db.remove v s).1 ≡ ran s)
  pub remove_ok :
      (v : String) (s : S)
      → is_open s ≡ true
      → (db.remove v s).0 ≡ true
      → ((k : String) → staged (db.remove v s).1 k ≡ (if v == k then none else staged s k))
        × (staged_ran (db.remove v s).1 ≡ staged_ran s)
        × (is_open (db.remove v s).1 ≡ true)
  pub commit_ok :
      (s : S)
      → is_open s ≡ true
      → (db.commit s).0 ≡ true
      → ((k : String) → row (db.commit s).1 k ≡ staged s k) × (ran (db.commit s).1 ≡ staged_ran s)
  pub commit_failed :
      (s : S)
      → is_open s ≡ true
      → (((k : String) → row (db.commit s).1 k ≡ row s k) × (ran (db.commit s).1 ≡ ran s))
        ⊎ (((k : String) → row (db.commit s).1 k ≡ staged s k)
            × (ran (db.commit s).1 ≡ staged_ran s))
  pub rollback_kept :
      (s : S) → ((k : String) → row (db.rollback s) k ≡ row s k) × (ran (db.rollback s) ≡ ran s)
  pub mark_dirty_ok :
      (m : Migration) (s : S) (k : String)
      → (db.mark_dirty m s).0 ≡ true
      → row (db.mark_dirty m s).1 k ≡ (if m.version == k then some true else row s k)
  pub mark_dirty_failed :
      (m : Migration) (s : S) (k : String)
      → (db.mark_dirty m s).0 ≡ false
      → row (db.mark_dirty m s).1 k ≡ row s k
  pub mark_dirty_ran : (m : Migration) (s : S) → ran (db.mark_dirty m s).1 ≡ ran s
  pub get_applied_row : (s : S) (k : String) → row (db.get_applied s).1 k ≡ row s k
  pub get_dirty_row : (s : S) (k : String) → row (db.get_dirty s).1 k ≡ row s k
  pub get_applied_rows :
      (s : S) (rows : List Row) (k : String)
      → (db.get_applied s).0 ≡ some rows
      → contains (versions rows) k ≡ is_row (row s k)
  pub get_dirty_rows :
      (s : S) (rows : List Row) (k : String)
      → (db.get_dirty s).0 ≡ some rows
      → contains (versions rows) k ≡ is_dirty_row (row s k)

module _ {S : Type 0} (db : Database S) (laws : Tracks db) where
  -- Nothing that is durable has changed.
  abbrev pub Kept : S → S → Type 0
  Kept s t = ((k : String) → laws.row t k ≡ laws.row s k) × (laws.ran t ≡ laws.ran s)

  pub Kept-trans : (s t u : S) → Kept s t → Kept t u → Kept s u
  Kept-trans s t u a b = ((λ k. b.0 k ∙ a.0 k), b.1 ∙ a.1)

  -- A transaction is open that was begun in `s`, and has run `log` and changed the rows by `change`.
  pub record InTx (s : S) (change : String → Option Bool → Option Bool) (log : List String) (u : S)
      : Type 0 where
    pub opened : laws.is_open u ≡ true
    pub kept : Kept s u
    pub rows : (k : String) → laws.staged u k ≡ change k (laws.row s k)
    pub log_of : laws.staged_ran u ≡ laws.ran s ++ log

  abbrev pub same : String → Option Bool → Option Bool
  same k o = o

  abbrev pub made_clean : String → String → Option Bool → Option Bool
  made_clean v k o = if v == k then some false else o

  abbrev pub taken : String → String → Option Bool → Option Bool
  taken v k o = if v == k then none else o

  pub after-begin : (s t : S) → (true, t) ≡ db.begin s → InTx s same [] t
  after-begin s t e =
      let (rows, log, opened) = laws.begin_ok s (sym (ap (λ x. x.0) e)) in
      subst (InTx s same []) (sym (ap (λ x. x.1) e)) (record {
        opened = opened;
        kept = laws.begin_kept s;
        rows = rows;
        log_of = log ∙ sym (append-nil (laws.ran s));
      })

  pub after-exec :
      (sql : String) (s u t : S)
      → laws.is_safe sql ≡ true
      → (true, t) ≡ db.exec sql u
      → InTx s same [] u
      → InTx s same (sql ∷ []) t
  after-exec sql s u t safe e tx =
      let (rows, log, opened) = laws.exec_ok sql u safe tx.opened (sym (ap (λ x. x.0) e)) in
      subst (InTx s same (sql ∷ [])) (sym (ap (λ x. x.1) e)) (record {
        opened = opened;
        kept = Kept-trans s u (db.exec sql u).1 tx.kept (laws.exec_kept sql u safe tx.opened);
        rows = λ k. rows k ∙ tx.rows k;
        log_of =
            log
            ∙ ap (λ l. l ++ sql ∷ []) tx.log_of
            ∙ ap (λ l. l ++ sql ∷ []) (append-nil (laws.ran s));
      })

  pub after-mark_applied :
      (m : Migration) (log : List String) (s u t : S)
      → (true, t) ≡ db.mark_applied m u
      → InTx s same log u
      → InTx s (made_clean m.version) log t
  after-mark_applied m log s u t e tx =
      let (rows, ran, opened) = laws.mark_applied_ok m u tx.opened (sym (ap (λ x. x.0) e)) in
      subst (InTx s (made_clean m.version) log) (sym (ap (λ x. x.1) e)) (record {
        opened = opened;
        kept =
            Kept-trans s u (db.mark_applied m u).1 tx.kept (laws.mark_applied_kept m u tx.opened);
        rows = λ k. rows k ∙ ap (made_clean m.version k) (tx.rows k);
        log_of = ran ∙ tx.log_of;
      })

  pub after-remove :
      (v : String) (log : List String) (s u t : S)
      → (true, t) ≡ db.remove v u
      → InTx s same log u
      → InTx s (taken v) log t
  after-remove v log s u t e tx =
      let (rows, ran, opened) = laws.remove_ok v u tx.opened (sym (ap (λ x. x.0) e)) in
      subst (InTx s (taken v) log) (sym (ap (λ x. x.1) e)) (record {
        opened = opened;
        kept = Kept-trans s u (db.remove v u).1 tx.kept (laws.remove_kept v u tx.opened);
        rows = λ k. rows k ∙ ap (taken v k) (tx.rows k);
        log_of = ran ∙ tx.log_of;
      })

  -- A commit: done, where it answers no error, and otherwise done or not.
  abbrev pub Done : S → (String → Option Bool → Option Bool) → List String → S → Type 0
  Done s change log t =
      ((k : String) → laws.row t k ≡ change k (laws.row s k)) × (laws.ran t ≡ laws.ran s ++ log)

  pub after-commit :
      (change : String → Option Bool → Option Bool) (log : List String) (s u t : S)
      → (true, t) ≡ db.commit u
      → InTx s change log u
      → Done s change log t
  after-commit change log s u t e tx =
      let (rows, ran) = laws.commit_ok u tx.opened (sym (ap (λ x. x.0) e)) in
      subst (Done s change log) (sym (ap (λ x. x.1) e)) ((λ k. rows k ∙ tx.rows k), ran ∙ tx.log_of)

  pub after-failed_commit :
      (change : String → Option Bool → Option Bool) (log : List String) (s u t : S)
      → (false, t) ≡ db.commit u
      → InTx s change log u
      → Kept s t ⊎ Done s change log t
  after-failed_commit change log s u t e tx =
      subst (λ v. Kept s v ⊎ Done s change log v) (sym (ap (λ x. x.1) e))
        (elim (laws.commit_failed u tx.opened) [
          | inl before ↦ inl (Kept-trans s u (db.commit u).1 tx.kept before)
          | inr (rows, ran) ↦ inr ((λ k. rows k ∙ tx.rows k), ran ∙ tx.log_of)
        ])

  -- A rollback behind a statement that failed
  pub after-rollback :
      (s u : S) (b : Bool) (t : S) (c : Bool × S)
      → (b, t) ≡ c
      → Kept s u
      → Kept u c.1
      → Kept s (db.rollback t)
  after-rollback s u b t c e kept ran =
      Kept-trans s t (db.rollback t)
        (subst (Kept s) (sym (ap (λ x. x.1) e)) (Kept-trans s u c.1 kept ran))
        (laws.rollback_kept t)
