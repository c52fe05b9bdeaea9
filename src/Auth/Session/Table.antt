-- ===== src/Auth/Session/Table.antt =====
-- What the schema and the queries of auth/session/db say of the sessions table.
use gas.Prelude.{
  String, string_eq, ◌==◌, Bool, Option, none, some, if◌then◌else◌, ℕ, ◌+◌, ◌≤◌, ltb, ◌≡◌,
}
use gas.Auth.Session.{SessionRow, row, no_rows, Querier}

abbrev pub without : (SessionRow → Bool) → Option SessionRow → Option SessionRow
without p none = none
without p (some r) = if p r then none else some r

-- What the table keeps of a row
abbrev pub kept_row : (ℕ → ℕ) → (String → String) → SessionRow → SessionRow
kept_row kept kept_text r = record r {
  metadata = kept_text r.metadata;
  created_at = kept r.created_at;
  expires_at = kept r.expires_at;
  last_active = kept r.last_active;
}

abbrev pub extend_row : ℕ → ℕ → SessionRow → SessionRow
extend_row expires last r = record r { expires_at = expires; last_active = last }

abbrev pub extend_at : ℕ → ℕ → Option SessionRow → Option SessionRow
extend_at expires last none = none
extend_at expires last (some r) = some (extend_row expires last r)

-- `at` is the row of an id. A statement that fails changes nothing. A column keeps of a time what its
-- type has room for (whole seconds in SQLite and MySQL, microseconds in Postgres), and a JSON column
-- keeps of a text what it prints for it.
pub record IsTable {D : Type 0} (q : Querier D) : Type 0 where
  pub kept : ℕ → ℕ
  pub precision : ℕ
  pub kept_close : (t : ℕ) → t ≤ kept t + precision
  pub kept_text : String → String
  pub at : D → String → Option SessionRow
  pub named : (d : D) (id : String) (r : SessionRow) → at d id ≡ some r → r.id ≡ id
  pub get_same : (id k : String) (d : D) → at (q.get_session id d).1 k ≡ at d k
  pub get_row :
      (id : String) (d : D) (r : SessionRow) → (q.get_session id d).0 ≡ row r → at d id ≡ some r
  pub get_none : (id : String) (d : D) → (q.get_session id d).0 ≡ no_rows → at d id ≡ none
  pub insert_ok :
      (r : SessionRow) (k : String) (d : D)
      → (q.insert_session r d).0 ≡ none
      → at (q.insert_session r d).1 k
        ≡ (if r.id == k then some (kept_row kept kept_text r) else at d k)
  pub insert_err :
      (r : SessionRow) (k : String) (d : D) (e : ℕ)
      → (q.insert_session r d).0 ≡ some e
      → at (q.insert_session r d).1 k ≡ at d k
  pub extend_ok :
      (id : String) (expires last : ℕ) (k : String) (d : D)
      → (q.extend_session id expires last d).0 ≡ none
      → at (q.extend_session id expires last d).1 k
        ≡ (if id == k then extend_at (kept expires) (kept last) (at d k) else at d k)
  pub extend_err :
      (id : String) (expires last : ℕ) (k : String) (d : D) (e : ℕ)
      → (q.extend_session id expires last d).0 ≡ some e
      → at (q.extend_session id expires last d).1 k ≡ at d k
  pub delete_ok :
      (id k : String) (d : D)
      → (q.delete_session id d).0 ≡ none
      → at (q.delete_session id d).1 k ≡ (if id == k then none else at d k)
  pub delete_err :
      (id k : String) (d : D) (e : ℕ)
      → (q.delete_session id d).0 ≡ some e
      → at (q.delete_session id d).1 k ≡ at d k
  pub by_subject_ok :
      (subject k : String) (d : D)
      → (q.delete_sessions_by_subject subject d).0 ≡ none
      → at (q.delete_sessions_by_subject subject d).1 k
        ≡ without (λ r. r.subject == subject) (at d k)
  pub by_subject_err :
      (subject k : String) (d : D) (e : ℕ)
      → (q.delete_sessions_by_subject subject d).0 ≡ some e
      → at (q.delete_sessions_by_subject subject d).1 k ≡ at d k
  pub expired_ok :
      (before : ℕ) (k : String) (d : D)
      → (q.delete_expired_sessions before d).0 ≡ none
      → at (q.delete_expired_sessions before d).1 k
        ≡ without (λ r. ltb r.expires_at (kept before)) (at d k)
  pub expired_err :
      (before : ℕ) (k : String) (d : D) (e : ℕ)
      → (q.delete_expired_sessions before d).0 ≡ some e
      → at (q.delete_expired_sessions before d).1 k ≡ at d k
