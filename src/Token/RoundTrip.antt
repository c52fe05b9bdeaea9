-- ===== src/Token/RoundTrip.antt =====
-- A token that was issued can be verified.
use gas.Prelude.{
  ℕ, ◌+◌, ◌≤◌, nat_eq, String, string_eq, ◌≡◌, ◌≢◌, refl, ◌∙◌, ap, Option, some, if◌then◌else◌, ℤ,
  is_zero, arith,
}
use gas.Token.{
  TokenRecord, Answer, ok, err, Querier, IsDatabase, done, add_duration, issue, inserted,
  check_record, verify,
}
use gas.Token.SingleUse.{inserted-database}

module _ {D : Type 0} (q : Querier D) (hash : String → String) (default_ttl : ℤ)
    (db : IsDatabase q) where
  inserted-ok :
      (raw : String) (a : Answer (Unit {0}) × D)
      → (inserted q hash default_ttl raw a).0 ≡ done raw
      → a.0 ≡ ok tt
  unfolding inserted
  inserted-ok raw (ok _, d) h = refl
  inserted-ok raw (err e, d) h = cc

  verify-some :
      (raw purpose : String) (later : ℕ) (d : D) (t : TokenRecord) (found : Option TokenRecord)
      → db.row d (hash raw) ≡ some t
      → t.purpose ≡ purpose
      → later ≤ t.expires_at
      → (q.consume_token_by_hash (hash raw) d).0 ≡ ok found
      → ((verify q hash default_ttl raw purpose later d).0 ≡ done t.subject)
        × ((k : String)
            → k ≢ hash raw
            → db.row (verify q hash default_ttl raw purpose later d).1 k ≡ db.row d k)
  unfolding verify check_record
  verify-some raw purpose later d t found there same in_time works =
      let is_t : found ≡ some t = (db.consume_ok (hash raw) (hash raw) d found works).0 ∙ there in
      (
        rw (works, is_t) (ground (arith, string_eq.eq_iff t.purpose purpose)),
        λ k other.
            ground
              (arith, (db.consume_ok (hash raw) k d found works).1, string_eq.eq_iff (hash raw) k),
      )

  -- A token that was issued without an error, and is verified next, answers its subject where the
  -- purpose is the same, the time is before its expiry by at least the precision of the expiry's
  -- column, and the database call does not fail; the other tokens are as they were before the issue.
  pub verify-issue :
      (raw id subject purpose : String) (ttl : ℤ) (now later : ℕ) (d : D)
      (found : Option TokenRecord)
      → (issue q hash default_ttl (ok raw) id subject purpose ttl now d).0 ≡ done raw
      → later + db.precision ≤ add_duration now (if is_zero ttl then default_ttl else ttl)
      → (q.consume_token_by_hash
          (hash raw)
          (issue q hash default_ttl (ok raw) id subject purpose ttl now d).1).0
        ≡ ok found
      → ((verify q hash default_ttl raw purpose later
            (issue q hash default_ttl (ok raw) id subject purpose ttl now d).1).0
          ≡ done subject)
        × ((k : String)
            → k ≢ hash raw
            → db.row
                (verify q hash default_ttl raw purpose later
                  (issue q hash default_ttl (ok raw) id subject purpose ttl now d).1).1
                k
              ≡ db.row d k)
  unfolding issue inserted verify check_record
  verify-issue raw id subject purpose ttl now later d found issued in_time works =
      let t : TokenRecord = record {
        id = id;
        subject = subject;
        purpose = purpose;
        expires_at = add_duration now (if is_zero ttl then default_ttl else ttl);
      } in
      let held : TokenRecord = record t { expires_at = db.kept t.expires_at } in
      let stored =
        inserted-database q hash default_ttl db raw (q.insert_token t (hash raw) now d) in
      let e = inserted-ok raw (q.insert_token t (hash raw) now d) issued in
      let there : db.row (issue q hash default_ttl (ok raw) id subject purpose ttl now d).1
            (hash raw)
          ≡ some held =
        ap (λ x. db.row x (hash raw)) stored
        ∙ ground (
          arith,
          db.insert_ok t (hash raw) (hash raw) now d e,
          string_eq.eq_iff (hash raw) (hash raw),
        ) in
      let (answered, others) =
        verify-some raw purpose later
          (issue q hash default_ttl (ok raw) id subject purpose ttl now d).1 held found there refl
          (omega (arith, db.kept_close t.expires_at, in_time)) works in
      (
        answered,
        λ k other.
            others k other
            ∙ ap (λ x. db.row x k) stored
            ∙ ground (arith, db.insert_ok t (hash raw) k now d e, string_eq.eq_iff (hash raw) k),
      )
