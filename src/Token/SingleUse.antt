-- ===== src/Token/SingleUse.antt =====
-- A token is verified at most once, and only as it was issued.
use gas.Prelude.{
  ℕ, ◌≤◌, nat_eq, String, string_eq, ◌≡◌, ◌≢◌, refl, sym, ◌∙◌, ap, none, some, if◌then◌else◌, ℤ,
  is_zero, arith, Option-cases, inl, inr, ◌⊎◌,
}
use gas.Token.{
  TokenRecord, Answer, ok, err, Querier, IsDatabase, done, add_duration, issue, inserted,
  check_record, verify, revoke, revoked, revoke_all_by_purpose, cleanup,
}

Answer-cases : {A : Type 0} (a : Answer A) → ((x : A) × (a ≡ ok x)) ⊎ ((e : ℕ) × (a ≡ err e))
Answer-cases (ok x) = inl (x, refl)
Answer-cases (err e) = inr (e, refl)

module _ {D : Type 0} (q : Querier D) (hash : String → String) (default_ttl : ℤ)
    (db : IsDatabase q) where
  -- Calls of the service by any goroutine of any process, after one another, none of which issues a
  -- token with the hash of `raw`.
  pub data Unissued (raw : String) : D → D → Type 0 where
    start : (d : D) → Unissued raw d d
    by_issue :
        (d e : D) (generated : Answer String) (id subject purpose : String) (ttl : ℤ) (now : ℕ)
        → Unissued raw d e
        → ((other : String) → generated ≡ ok other → hash other ≢ hash raw)
        → Unissued raw d (issue q hash default_ttl generated id subject purpose ttl now e).1
    by_verify :
        (d e : D) (other purpose : String) (now : ℕ)
        → Unissued raw d e
        → Unissued raw d (verify q hash default_ttl other purpose now e).1
    by_revoke :
        (d e : D) (other : String)
        → Unissued raw d e
        → Unissued raw d (revoke q hash default_ttl other e).1
    by_revoke_all :
        (d e : D) (subject purpose : String)
        → Unissued raw d e
        → Unissued raw d (revoke_all_by_purpose q hash default_ttl subject purpose e).1
    by_cleanup :
        (d e : D) (now : ℕ) → Unissued raw d e → Unissued raw d (cleanup q hash default_ttl now e).1

  -- A verification answers a subject only for a row with its hash, of the purpose and not expired.
  pub verify-row :
      (raw purpose subject : String) (now : ℕ) (d : D)
      → (verify q hash default_ttl raw purpose now d).0 ≡ done subject
      → (t : TokenRecord) × (db.row d (hash raw) ≡ some t)
        × (t.purpose ≡ purpose)
        × (t.subject ≡ subject)
        × (now ≤ t.expires_at)
        × (db.row (verify q hash default_ttl raw purpose now d).1 (hash raw) ≡ none)
  unfolding verify check_record
  verify-row raw purpose subject now d h =
      elim (Answer-cases (q.consume_token_by_hash (hash raw) d).0) [
        | inl (none, e) ↦ ground (arith, e)
        | inl (some t, e) ↦
            let (found, gone) = db.consume_ok (hash raw) (hash raw) d (some t) e in
            let answered : check_record q hash default_ttl purpose now (ok (some t))
                ≡ done subject =
              sym (ap (check_record q hash default_ttl purpose now) e) ∙ h in
            (
              t,
              sym found,
              ground (arith, answered, string_eq.eq_iff t.purpose purpose),
              ground (arith, answered),
              ground (arith, answered),
              ground (arith, gone, string_eq.eq_iff (hash raw) (hash raw)),
            )
        | inr (x, e) ↦ ground (arith, e)
      ]

  row-consume :
      (h k : String) (d : D) → db.row d k ≡ none → db.row (q.consume_token_by_hash h d).1 k ≡ none
  row-consume h k d gone = elim (Answer-cases (q.consume_token_by_hash h d).0) [
    | inl (found, e) ↦ ground (arith, (db.consume_ok h k d found e).1)
    | inr (x, e) ↦ db.consume_err h k d x e ∙ gone
  ]

  row-delete :
      (h k : String) (d : D) → db.row d k ≡ none → db.row (q.delete_token_by_hash h d).1 k ≡ none
  row-delete h k d gone = elim (Answer-cases (q.delete_token_by_hash h d).0) [
    | inl (n, e) ↦ ground (arith, (db.delete_ok h k d n e).1)
    | inr (x, e) ↦ db.delete_err h k d x e ∙ gone
  ]

  row-insert :
      (t : TokenRecord) (h k : String) (now : ℕ) (d : D)
      → h ≢ k
      → db.row d k ≡ none
      → db.row (q.insert_token t h now d).1 k ≡ none
  row-insert t h k now d apart gone = elim (Answer-cases (q.insert_token t h now d).0) [
    | inl (u, e) ↦ ground (arith, db.insert_ok t h k now d e, string_eq.eq_iff h k)
    | inr (x, e) ↦ db.insert_err t h k now x d e ∙ gone
  ]

  pub inserted-database :
      (raw : String) (a : Answer (Unit {0}) × D) → (inserted q hash default_ttl raw a).1 ≡ a.1
  unfolding inserted
  inserted-database raw (ok _, d) = refl
  inserted-database raw (err e, d) = refl

  row-issue :
      (generated : Answer String) (id subject purpose raw : String) (ttl : ℤ) (now : ℕ) (d : D)
      → ((other : String) → generated ≡ ok other → hash other ≢ hash raw)
      → db.row d (hash raw) ≡ none
      → db.row (issue q hash default_ttl generated id subject purpose ttl now d).1 (hash raw) ≡ none
  unfolding issue
  row-issue (err e) id subject purpose raw ttl now d apart gone = gone
  row-issue (ok other) id subject purpose raw ttl now d apart gone =
      rw
        (inserted-database other (
          q.insert_token
            (record {
              id = id;
              subject = subject;
              purpose = purpose;
              expires_at = add_duration now (if is_zero ttl then default_ttl else ttl);
            })
            (hash other) now d))
        (row-insert _ (hash other) (hash raw) now d (apart other refl) gone)

  -- A row that is gone stays gone until a token with its hash is issued.
  row-Unissued :
      (raw : String) (d e : D)
      → Unissued raw d e
      → db.row d (hash raw) ≡ none
      → db.row e (hash raw) ≡ none
  unfolding verify revoke revoke_all_by_purpose cleanup
  row-Unissued raw d e (start _) gone = gone
  row-Unissued raw d e (by_issue _ c generated id subject purpose ttl now before apart) gone =
      row-issue generated id subject purpose raw ttl now c apart (row-Unissued raw d c before gone)
  row-Unissued raw d e (by_verify _ c other purpose now before) gone =
      row-consume (hash other) (hash raw) c (row-Unissued raw d c before gone)
  row-Unissued raw d e (by_revoke _ c other before) gone =
      row-delete (hash other) (hash raw) c (row-Unissued raw d c before gone)
  row-Unissued raw d e (by_revoke_all _ c subject purpose before) gone =
      elim (Option-cases
        (db.row (q.delete_tokens_by_subject_purpose subject purpose c).1 (hash raw))) [
          | inl none_ ↦ none_
          | inr (t, there) ↦ ground (
            arith,
            db.purge subject purpose (hash raw) c t there,
            row-Unissued raw d c before gone,
          )
        ]
  row-Unissued raw d e (by_cleanup _ c now before) gone =
      elim (Option-cases (db.row (q.delete_expired_tokens now c).1 (hash raw))) [
        | inl none_ ↦ none_
        | inr (t, there) ↦
            ground (arith, db.expire now (hash raw) c t there, row-Unissued raw d c before gone)
      ]

  -- A token is verified once: after a verification that answers a subject, no later one of the same
  -- token does, for whichever purpose and at whichever time, whatever other calls run in between, as
  -- long as none issues a token with the same hash.
  pub verify_once :
      (raw purpose subject : String) (now : ℕ) (d e : D) (purpose' subject' : String) (now' : ℕ)
      → (verify q hash default_ttl raw purpose now d).0 ≡ done subject
      → Unissued raw (verify q hash default_ttl raw purpose now d).1 e
      → (verify q hash default_ttl raw purpose' now' e).0 ≢ done subject'
  verify_once raw purpose subject now d e purpose' subject' now' first between again =
      let (t, _, _, _, _, gone) = verify-row raw purpose subject now d first in
      let (t', there, _, _, _, _) = verify-row raw purpose' subject' now' e again in
      ground (
        arith,
        there,
        row-Unissued raw (verify q hash default_ttl raw purpose now d).1 e between gone,
      )

  -- After a Revoke that answers no error, no verification of the token answers a subject, whatever
  -- other calls run in between, as long as none issues a token with the same hash.
  pub revoke_once :
      (raw : String) (d e : D) (purpose' subject' : String) (now' : ℕ)
      → (revoke q hash default_ttl raw d).0 ≡ done tt
      → Unissued raw (revoke q hash default_ttl raw d).1 e
      → (verify q hash default_ttl raw purpose' now' e).0 ≢ done subject'
  unfolding revoke revoked
  revoke_once raw d e purpose' subject' now' first between again =
      let (t', there, _, _, _, _) = verify-row raw purpose' subject' now' e again in
      elim (Answer-cases (q.delete_token_by_hash (hash raw) d).0) [
        | inl (n, ok_) ↦ ground (
          arith,
          there,
          row-Unissued raw (revoke q hash default_ttl raw d).1 e between (
              ground (
                arith,
                (db.delete_ok (hash raw) (hash raw) d n ok_).1,
                string_eq.eq_iff (hash raw) (hash raw),
              )),
        )
        | inr (x, bad) ↦ ground (arith, bad)
      ]
