-- ===== src/Token.antt =====
-- auth/token/token.go over auth/token/db/store.go: single-use tokens. A time is a number of
-- nanoseconds since a moment before every time in play. The SQL queries are the parameter
-- `Querier`, a statement on the database each; SHA-256 is the parameter `hash`, and what the random
-- source and the UUID generator return are arguments.
pub mod SingleUse
pub mod RoundTrip
pub mod Tests
use gas.Prelude.{
  ℕ, ◌+◌, ◌-◌, ◌≤◌, suc, nat_eq, String, string_eq, ◌==◌, ltb, ◌≡◌, ◌≢◌, Bool, true, false, not,
  ◌&&◌, ◌||◌, Option, none, some, if◌then◌else◌, ℤ, pos, negsuc, is_zero,
}
use gas.Maps

pub record TokenRecord : Type 0 where
  pub id : String
  pub subject : String
  pub purpose : String
  pub expires_at : ℕ

-- What a database call answers: a result, or the error of the driver.
pub data Answer (A : Type 0) : Type 0 where
  ok : A → Answer A
  err : ℕ → Answer A

-- The interface `querier`, over the databases `D`. The hash is the second argument of an insert.
pub record Querier (D : Type 0) : Type 0 where
  pub consume_token_by_hash : String → D → Answer (Option TokenRecord) × D
  pub insert_token : TokenRecord → String → ℕ → D → Answer (Unit {0}) × D
  pub delete_token_by_hash : String → D → Answer ℕ × D
  pub delete_tokens_by_subject_purpose : String → String → D → Answer (Unit {0}) × D
  pub delete_expired_tokens : ℕ → D → Answer ℕ × D

-- What the schema and the statements say: `token_hash` is unique, an INSERT adds its row alone, a
-- DELETE takes the rows that its WHERE names, and a failed statement changes nothing. A column keeps
-- of a time what its type has room for: whole seconds in SQLite and MySQL, microseconds in Postgres.
pub record IsDatabase {D : Type 0} (q : Querier D) : Type 0 where
  pub kept : ℕ → ℕ
  pub precision : ℕ
  pub kept_close : (t : ℕ) → t ≤ kept t + precision
  pub row : D → String → Option TokenRecord
  pub consume_ok :
      (h k : String) (d : D) (found : Option TokenRecord)
      → (q.consume_token_by_hash h d).0 ≡ ok found
      → (found ≡ row d h)
        × (row (q.consume_token_by_hash h d).1 k ≡ (if h == k then none else row d k))
  pub consume_err :
      (h k : String) (d : D) (e : ℕ)
      → (q.consume_token_by_hash h d).0 ≡ err e
      → row (q.consume_token_by_hash h d).1 k ≡ row d k
  pub insert_ok :
      (t : TokenRecord) (h k : String) (now : ℕ) (d : D)
      → (q.insert_token t h now d).0 ≡ ok tt
      → row (q.insert_token t h now d).1 k
        ≡ (if h == k then some (record t { expires_at = kept t.expires_at }) else row d k)
  pub insert_err :
      (t : TokenRecord) (h k : String) (now e : ℕ) (d : D)
      → (q.insert_token t h now d).0 ≡ err e
      → row (q.insert_token t h now d).1 k ≡ row d k
  pub delete_ok :
      (h k : String) (d : D) (n : ℕ)
      → (q.delete_token_by_hash h d).0 ≡ ok n
      → (n ≡ (if Maps.is_some (row d h) then 1 else 0))
        × (row (q.delete_token_by_hash h d).1 k ≡ (if h == k then none else row d k))
  pub delete_err :
      (h k : String) (d : D) (e : ℕ)
      → (q.delete_token_by_hash h d).0 ≡ err e
      → row (q.delete_token_by_hash h d).1 k ≡ row d k
  -- The other deletions take rows, and change none.
  pub purge :
      (subject purpose k : String) (d : D) (t : TokenRecord)
      → row (q.delete_tokens_by_subject_purpose subject purpose d).1 k ≡ some t
      → row d k ≡ some t
  pub expire :
      (before : ℕ) (k : String) (d : D) (t : TokenRecord)
      → row (q.delete_expired_tokens before d).1 k ≡ some t
      → row d k ≡ some t

pub data TokenError : Type 0 where
  token_invalid token_expired : TokenError
  generate_token issue_token verify_token revoke_token revoke_all cleanup_failed : ℕ → TokenError

pub data Outcome (A : Type 0) : Type 0 where
  done : A → Outcome A
  failed : TokenError → Outcome A

-- `now.Add(ttl)`
abbrev pub add_duration : ℕ → ℤ → ℕ
add_duration now (pos n) = now + n
add_duration now (negsuc n) = now - suc n

module _ {D : Type 0} (q : Querier D) (hash : String → String) (default_ttl : ℤ) where
  unfoldable pub inserted : String → Answer (Unit {0}) × D → Outcome String × D
  inserted raw (ok _, d) = (done raw, d)
  inserted raw (err e, d) = (failed (issue_token e), d)

  -- `generated` is what RandomString answers.
  unfoldable pub issue : Answer String → String → String → String → ℤ → ℕ → D → Outcome String × D
  unfolding inserted
  issue (err e) id subject purpose ttl now d = (failed (generate_token e), d)
  issue (ok raw) id subject purpose ttl now d =
      let t : TokenRecord = record {
        id = id;
        subject = subject;
        purpose = purpose;
        expires_at = add_duration now (if is_zero ttl then default_ttl else ttl);
      } in
      inserted raw (q.insert_token t (hash raw) now d)

  unfoldable pub check_record : String → ℕ → Answer (Option TokenRecord) → Outcome String
  check_record purpose now (err e) = failed (verify_token e)
  check_record purpose now (ok none) = failed token_invalid
  check_record purpose now (ok (some t)) =
      if not (t.purpose == purpose)
      then failed token_invalid
      else if ltb t.expires_at now
      then failed token_expired
      else done t.subject

  -- `now` is the time after the query.
  unfoldable pub verify : String → String → ℕ → D → Outcome String × D
  unfolding check_record
  verify raw purpose now d =
      let (found, d') = q.consume_token_by_hash (hash raw) d in (check_record purpose now found, d')

  unfoldable pub revoked : Answer ℕ → Outcome (Unit {0})
  revoked (err e) = failed (revoke_token e)
  revoked (ok n) = if n == 0 then failed token_invalid else done tt

  unfoldable pub revoke : String → D → Outcome (Unit {0}) × D
  unfolding revoked
  revoke raw d = let (n, d') = q.delete_token_by_hash (hash raw) d in (revoked n, d')

  unfoldable pub revoke_all_by_purpose : String → String → D → Outcome (Unit {0}) × D
  revoke_all_by_purpose subject purpose d =
      let (e, d') = q.delete_tokens_by_subject_purpose subject purpose d in
      (elim e [ ok _ ↦ done tt | err x ↦ failed (revoke_all x) ], d')

  -- A tick of cleanupLoop
  unfoldable pub cleanup : ℕ → D → Outcome ℕ × D
  cleanup now d =
      let (e, d') = q.delete_expired_tokens now d in
      (elim e [ ok n ↦ done n | err x ↦ failed (cleanup_failed x) ], d')
