-- ===== src/Auth/ApiKey/Keys.antt =====
-- What the schema and the queries of auth/apikey/db say of the table of keys.
use gas.Maps
use gas.Prelude.{
  String, string_eq, ◌==◌, Bool, false, not, ◌&&◌, Option, none, some, if◌then◌else◌, ℕ, ◌≡◌,
}
use gas.Auth.ApiKey.{KeyRow, row, Querier}

abbrev pub without : (KeyRow → Bool) → Option KeyRow → Option KeyRow
without p none = none
without p (some r) = if p r then none else some r

abbrev pub is_revoked : KeyRow → Bool
is_revoked r = Maps.is_some r.deleted_at

-- SET deleted_at WHERE p AND deleted_at IS NULL
abbrev pub soft_delete : (KeyRow → Bool) → ℕ → Option KeyRow → Option KeyRow
soft_delete p now none = none
soft_delete p now (some r) =
    if p r && not (is_revoked r) then some (record r { deleted_at = some now }) else some r

abbrev pub set_last_used : ℕ → Option KeyRow → Option KeyRow
set_last_used now none = none
set_last_used now (some r) = some (record r { last_used = some now })

-- `at` is the row of an id; ids and hashes are unique. A statement that fails changes nothing. A column
-- keeps of a time what its type has room for (whole seconds in SQLite and MySQL, microseconds in
-- Postgres), and the other columns of a row what `kept_row` says, which leaves the id and the hash.
pub record IsTable {D : Type 0} (q : Querier D) : Type 0 where
  pub kept : ℕ → ℕ
  pub kept_row : KeyRow → KeyRow
  pub kept_hash : (r : KeyRow) → (kept_row r).key_hash ≡ r.key_hash
  pub at : D → String → Option KeyRow
  pub named : (d : D) (id : String) (r : KeyRow) → at d id ≡ some r → r.id ≡ id
  pub unique :
      (d : D) (i j : String) (r s : KeyRow)
      → at d i ≡ some r
      → at d j ≡ some s
      → r.key_hash ≡ s.key_hash
      → i ≡ j
  pub get_same : (h k : String) (d : D) → at (q.get_key_by_hash h d).1 k ≡ at d k
  pub get_row :
      (h : String) (d : D) (r : KeyRow)
      → (q.get_key_by_hash h d).0 ≡ row r
      → (at d r.id ≡ some r) × (r.key_hash ≡ h) × (is_revoked r ≡ false)
  pub used_ok :
      (id : String) (now : ℕ) (k : String) (d : D)
      → (q.update_last_used id now d).0 ≡ none
      → at (q.update_last_used id now d).1 k
        ≡ (if id == k then set_last_used (kept now) (at d k) else at d k)
  pub used_err :
      (id : String) (now : ℕ) (k : String) (d : D) (e : ℕ)
      → (q.update_last_used id now d).0 ≡ some e
      → at (q.update_last_used id now d).1 k ≡ at d k
  pub insert_ok :
      (r : KeyRow) (k : String) (d : D)
      → (q.insert_key r d).0 ≡ none
      → at (q.insert_key r d).1 k ≡ (if r.id == k then some (kept_row r) else at d k)
  pub insert_err :
      (r : KeyRow) (k : String) (d : D) (e : ℕ)
      → (q.insert_key r d).0 ≡ some e
      → at (q.insert_key r d).1 k ≡ at d k
  pub soft_id_ok :
      (id : String) (now : ℕ) (k : String) (d : D)
      → (q.soft_delete_key_by_id id now d).0 ≡ none
      → at (q.soft_delete_key_by_id id now d).1 k
        ≡ soft_delete (λ r. r.id == id) (kept now) (at d k)
  pub soft_id_err :
      (id : String) (now : ℕ) (k : String) (d : D) (e : ℕ)
      → (q.soft_delete_key_by_id id now d).0 ≡ some e
      → at (q.soft_delete_key_by_id id now d).1 k ≡ at d k
  pub soft_subject_ok :
      (subject : String) (now : ℕ) (k : String) (d : D)
      → (q.soft_delete_keys_by_subject subject now d).0 ≡ none
      → at (q.soft_delete_keys_by_subject subject now d).1 k
        ≡ soft_delete (λ r. r.subject == subject) (kept now) (at d k)
  pub soft_subject_err :
      (subject : String) (now : ℕ) (k : String) (d : D) (e : ℕ)
      → (q.soft_delete_keys_by_subject subject now d).0 ≡ some e
      → at (q.soft_delete_keys_by_subject subject now d).1 k ≡ at d k
  pub hard_id_ok :
      (id k : String) (d : D)
      → (q.hard_delete_key_by_id id d).0 ≡ none
      → at (q.hard_delete_key_by_id id d).1 k ≡ (if id == k then none else at d k)
  pub hard_id_err :
      (id k : String) (d : D) (e : ℕ)
      → (q.hard_delete_key_by_id id d).0 ≡ some e
      → at (q.hard_delete_key_by_id id d).1 k ≡ at d k
  pub hard_subject_ok :
      (subject k : String) (d : D)
      → (q.hard_delete_keys_by_subject subject d).0 ≡ none
      → at (q.hard_delete_keys_by_subject subject d).1 k
        ≡ without (λ r. r.subject == subject) (at d k)
  pub hard_subject_err :
      (subject k : String) (d : D) (e : ℕ)
      → (q.hard_delete_keys_by_subject subject d).0 ≡ some e
      → at (q.hard_delete_keys_by_subject subject d).1 k ≡ at d k
