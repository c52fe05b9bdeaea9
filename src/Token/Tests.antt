-- ===== src/Token/Tests.antt =====
-- A database that is a function of the hash, and the theorems at it.
use gas.Prelude.{
  ℕ, ◌+◌, ◌*◌, ◌/◌, ◌≤◌, String, string_eq, ◌==◌, ltb, ◌≡◌, ◌≢◌, refl, Bool, ◌&&◌, Option, none,
  some, if◌then◌else◌, pos, arith,
}
use gas.Maps
use gas.Token.{
  TokenRecord, ok, err, Querier, IsDatabase, done, issue, verify, revoke, cleanup, check_record,
}
use gas.Token.RoundTrip.{verify-issue}
use gas.Token.SingleUse.{start, by_cleanup, verify_once, revoke_once}

abbrev Table : Type 0
Table = String → Option TokenRecord

abbrev without : (TokenRecord → Bool) → Option TokenRecord → Option TokenRecord
without p none = none
without p (some t) = if p t then none else some t

without-some :
    (p : TokenRecord → Bool) (o : Option TokenRecord) (t : TokenRecord)
    → without p o ≡ some t
    → o ≡ some t
without-some p none t h = cc
without-some p (some x) t h = ground (arith, p x)

-- It keeps times to ten.
abbrev tens : ℕ → ℕ
tens t = t / 10 * 10

tens_close : (t : ℕ) → t ≤ tens t + 10
tens_close t = omega arith

-- It does not count what it deletes by purpose or age.
abbrev table : Querier Table
table = record {
  consume_token_by_hash = λ h d. (ok (d h), λ k. if h == k then none else d k);
  insert_token = λ t h now d. (
    if Maps.is_some (d h) then err 1 else ok tt,
    if Maps.is_some (d h) then d else λ k.
        if h == k then some (record t { expires_at = tens t.expires_at }) else d k,
  );
  delete_token_by_hash =
      λ h d. (ok (if Maps.is_some (d h) then 1 else 0), λ k. if h == k then none else d k);
  delete_tokens_by_subject_purpose = λ subject purpose d.
      (ok tt, λ k. without (λ t. t.subject == subject && t.purpose == purpose) (d k));
  delete_expired_tokens = λ before d. (ok 0, λ k. without (λ t. ltb t.expires_at before) (d k));
}

abbrev table_laws : IsDatabase table
table_laws = record {
  kept = tens;
  precision = 10;
  kept_close = tens_close;
  row = λ d. d;
  consume_ok = λ h k d found e. (cc, refl);
  consume_err = λ h k d x e. cc;
  insert_ok = λ t h k now d e. ground arith;
  insert_err = λ t h k now x d e. ground arith;
  delete_ok = λ h k d n e. (cc, refl);
  delete_err = λ h k d x e. cc;
  purge = λ subject purpose k d t e. without-some _ (d k) t e;
  expire = λ before k d t e. without-some _ (d k) t e;
}

abbrev hash : String → String
hash s = s

abbrev invited : TokenRecord
invited = record { id = "1"; subject = "ann"; purpose = "invite"; expires_at = 20 }

abbrev one : Table
one = λ k. if "tok" == k then some invited else none

tok_verified : (verify table hash (pos 10) "tok" "invite" 20 one).0 ≡ done "ann"
unfolding verify check_record
tok_verified = refl

tok_revoked : (revoke table hash (pos 10) "tok" one).0 ≡ done tt
unfolding revoke
tok_revoked = refl

tok_issued : (issue table hash (pos 10) (ok "new") "2" "bob" "reset" (pos 0) 5 one).0 ≡ done "new"
unfolding issue
tok_issued = refl

abbrev after_verify : Table
after_verify = (verify table hash (pos 10) "tok" "invite" 20 one).1

abbrev after_revoke : Table
after_revoke = (revoke table hash (pos 10) "tok" one).1

abbrev after_issue : Table
after_issue = (issue table hash (pos 10) (ok "new") "2" "bob" "reset" (pos 0) 5 one).1

verify_once_example :
    (verify table hash (pos 10) "tok" "invite" 20 (cleanup table hash (pos 10) 20 after_verify).1).0
    ≢ done "ann"
verify_once_example =
    verify_once table hash (pos 10) table_laws "tok" "invite" "ann" 20 one
      (cleanup table hash (pos 10) 20 after_verify).1 "invite" "ann" 20 tok_verified
      (by_cleanup after_verify after_verify 20 (start after_verify))

new_consumed : (table.consume_token_by_hash "new" after_issue).0 ≡ ok (after_issue "new")
new_consumed = refl

verify-issue_example :
    ((verify table hash (pos 10) "new" "reset" 5 after_issue).0 ≡ done "bob")
    × ((k : String)
        → k ≢ "new"
        → (verify table hash (pos 10) "new" "reset" 5 after_issue).1 k ≡ one k)
unfolding verify
verify-issue_example =
    verify-issue table hash (pos 10) table_laws "new" "2" "bob" "reset" (pos 0) 5 5 one
      (after_issue "new") tok_issued (omega arith) new_consumed

revoke_once_example :
    (verify table hash (pos 10) "tok" "invite" 5 (cleanup table hash (pos 10) 5 after_revoke).1).0
    ≢ done "ann"
revoke_once_example =
    revoke_once table hash (pos 10) table_laws "tok" one
      (cleanup table hash (pos 10) 5 after_revoke).1 "invite" "ann" 5 tok_revoked
      (by_cleanup after_revoke after_revoke 5 (start after_revoke))
