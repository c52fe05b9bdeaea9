-- ===== src/Auth/Session/Tests.antt =====
-- A table with room for one session, and the theorems at it.
use gas.Prelude.{
  String, string_eq, ◌==◌, Bool, true, false, Option, none, some, if◌then◌else◌, ℕ, ◌+◌, ◌*◌, ◌/◌,
  ◌≤◌, ltb, ◌≡◌, ◌≢◌, refl, ap, arith, pos, subst,
}
use gas.Auth.{Principal, accepted, scheme_session}
use gas.Auth.Session.{
  SessionRow, Fetched, row, no_rows, query_error, Querier, Codec, Settings, Session, created,
  authenticate, create, revoke, cleanup, insert_session, inserted, fetch, fetched, decoded,
  admitted, extended,
}
use gas.Auth.Session.Table.{IsTable, without, extend_at, kept_row}
use gas.Auth.Session.Ended.{Later, Ends, ended_rejected}
use gas.Auth.Session.Access.{Access, authenticate-Access}
use gas.Auth.Session.RoundTrip.{Survives, authenticate-create}

abbrev Table : Type 0
Table = Option SessionRow

abbrev row_at : Table → String → Option SessionRow
row_at none id = none
row_at (some r) id = if r.id == id then some r else none

-- It keeps times to ten.
abbrev tens : ℕ → ℕ
tens t = t / 10 * 10

tens_close : (t : ℕ) → t ≤ tens t + 10
tens_close t = omega arith

abbrev table : Querier Table
table = record {
  get_session = λ id d. (elim (row_at d id) [ none ↦ no_rows | some r ↦ row r ], d);
  insert_session = λ r d. elim d [
    | none ↦ (none, some (kept_row tens (λ s. s) r))
    | some old ↦ (some 1, some old)
  ];
  extend_session = λ id expires last d. (
    none,
    elim d [
      | none ↦ none
      | some r ↦ if r.id == id then extend_at (tens expires) (tens last) (some r) else some r
    ],
  );
  delete_session = λ id d. (none, without (λ r. r.id == id) d);
  delete_sessions_by_subject = λ subject d. (none, without (λ r. r.subject == subject) d);
  delete_expired_sessions = λ before d. (none, without (λ r. ltb r.expires_at (tens before)) d);
}

row_at-without :
    (p : SessionRow → Bool) (d : Table) (k : String)
    → row_at (without p d) k ≡ without p (row_at d k)
row_at-without p none k = refl
row_at-without p (some r) k = ground (arith, p r)

row_at-named : (d : Table) (id : String) (r : SessionRow) → row_at d id ≡ some r → r.id ≡ id
row_at-named none id r h = cc
row_at-named (some s) id r h =
    ground (arith, h, string_eq.eq_iff s.id id, ap {A = SessionRow} (λ x. x.id))

row_at-get :
    (id : String) (d : Table) (r : SessionRow)
    → (table.get_session id d).0 ≡ row r
    → row_at d id ≡ some r
row_at-get id d r h = answered (row_at d id) refl h
  where
    answered :
        (o : Option SessionRow)
        → row_at d id ≡ o
        → ◌≡◌ {A = Fetched SessionRow} (elim o [ none ↦ no_rows | some s ↦ row s ]) (row r)
        → row_at d id ≡ some r
    answered none e k = cc
    answered (some s) e k = cc

row_at-delete :
    (id k : String) (d : Table)
    → row_at (without (λ r. r.id == id) d) k ≡ (if id == k then none else row_at d k)
row_at-delete id k none = ground arith
row_at-delete id k (some r) =
    ground (arith, string_eq.eq_iff r.id k, string_eq.eq_iff r.id id, string_eq.eq_iff id k)

row_at-none : (id : String) (d : Table) → (table.get_session id d).0 ≡ no_rows → row_at d id ≡ none
row_at-none id d h = answered (row_at d id) refl h
  where
    answered :
        (o : Option SessionRow)
        → row_at d id ≡ o
        → ◌≡◌ {A = Fetched SessionRow} (elim o [ none ↦ no_rows | some s ↦ row s ]) no_rows
        → row_at d id ≡ none
    answered none e k = e
    answered (some s) e k = cc

row_at-insert :
    (r : SessionRow) (k : String) (d : Table)
    → (table.insert_session r d).0 ≡ none
    → row_at (table.insert_session r d).1 k
      ≡ (if r.id == k then some (kept_row tens (λ s. s) r) else row_at d k)
row_at-insert r k none h = refl
row_at-insert r k (some s) h = cc

row_at-insert_err :
    (r : SessionRow) (k : String) (d : Table) (e : ℕ)
    → (table.insert_session r d).0 ≡ some e
    → row_at (table.insert_session r d).1 k ≡ row_at d k
row_at-insert_err r k none e h = cc
row_at-insert_err r k (some s) e h = refl

row_at-extend :
    (id : String) (expires last : ℕ) (k : String) (d : Table)
    → row_at (table.extend_session id expires last d).1 k
      ≡ (if id == k then extend_at (tens expires) (tens last) (row_at d k) else row_at d k)
row_at-extend id expires last k none = ground arith
row_at-extend id expires last k (some s) =
    ground (arith, string_eq.eq_iff s.id id, string_eq.eq_iff s.id k, string_eq.eq_iff id k)

text_eq : {a b : String} → some a ≡ some b → a ≡ b
text_eq h = cc

not_failed : {e : ℕ} → none ≡ some e → {A : Type 0} → A
not_failed h = cc

abbrev laws : IsTable table
laws = record {
  kept = tens;
  precision = 10;
  kept_close = tens_close;
  kept_text = λ s. s;
  at = row_at;
  named = row_at-named;
  get_same = λ id k d. refl;
  get_row = row_at-get;
  get_none = row_at-none;
  insert_ok = row_at-insert;
  insert_err = row_at-insert_err;
  extend_ok = λ id expires last k d h. row_at-extend id expires last k d;
  extend_err = λ id expires last k d e h. not_failed h;
  delete_ok = λ id k d h. row_at-delete id k d;
  delete_err = λ id k d e h. not_failed h;
  by_subject_ok = λ subject k d h. row_at-without (λ r. r.subject == subject) d k;
  by_subject_err = λ subject k d e h. not_failed h;
  expired_ok = λ before k d h. row_at-without (λ r. ltb r.expires_at (tens before)) d k;
  expired_err = λ before k d e h. not_failed h;
}

-- Metadata is a flag.
abbrev codec : Codec Bool
codec = record {
  empty = false;
  marshal = λ m. some (if m then "true" else "false");
  unmarshal = λ json. some (json == "true");
}

true-Survives : Survives codec (λ s. s) true
true-Survives = record {
  decodes = λ json h. subst (λ j. codec.unmarshal j ≡ some true) (text_eq h) refl;
  nonempty = λ json h. subst (λ j. (j == "") ≡ false) (text_eq h) refl;
}

abbrev cfg : Settings
cfg = record { session_ttl = pos 10; extend_on_access = true }

-- Ann's session, drawn as "k" at 5
abbrev ann : Session Bool
ann = record {
  id = "k";
  subject = "ann";
  metadata = true;
  ip_address = "host";
  user_agent = "curl";
  created_at = 5;
  expires_at = 15;
  last_active = 5;
}

abbrev with_ann : Table
with_ann = (create codec table cfg (some "k") "ann" (some true) "host" "curl" 5 none).1

ann_created :
    create codec table cfg (some "k") "ann" (some true) "host" "curl" 5 none
    ≡ (created ann, with_ann)
unfolding create insert_session inserted
ann_created = refl

ann_found : (x : ℕ) → (table.get_session "k" with_ann).0 ≢ query_error x
unfolding create insert_session inserted
ann_found x h = cc

authenticate-create_example :
    (authenticate codec table cfg (some "k") 5 with_ann).0
    ≡ accepted
        (record { subject = "ann"; scheme = scheme_session; credential_id = "k"; metadata = true })
authenticate-create_example =
    authenticate-create codec table cfg laws "k" "ann" (some true) "host" "curl" 5 5 none with_ann
      ann ann_created (λ h. ground (arith, string_eq.eq_iff "k" "", h)) (omega arith) true-Survives
      ann_found refl

abbrev principal : Principal Bool
principal = record {
  subject = "ann";
  scheme = scheme_session;
  credential_id = "k";
  metadata = true;
}

abbrev extended_row : Table
extended_row = (authenticate codec table cfg (some "k") 5 with_ann).1

ann_accepted :
    authenticate codec table cfg (some "k") 5 with_ann ≡ (accepted principal, extended_row)
unfolding create insert_session inserted authenticate fetch fetched decoded admitted extended
ann_accepted = refl

authenticate-Access_example : Access codec table cfg laws "k" 5 with_ann principal extended_row
authenticate-Access_example =
    authenticate-Access codec table cfg laws "k" 5 with_ann principal extended_row ann_accepted

abbrev after_revoke : Table
after_revoke = (revoke codec table cfg principal with_ann).1

revoke_succeeds : (revoke codec table cfg principal with_ann).0 ≡ none
unfolding revoke
revoke_succeeds = refl

ended_rejected_example :
    (authenticate codec table cfg (some "k") 12 (cleanup codec table cfg 11 after_revoke)).0
    ≢ accepted principal
ended_rejected_example =
    ended_rejected codec table cfg laws "k" with_ann after_revoke
      (cleanup codec table cfg 11 after_revoke) 12 principal
      (Ends.revoked principal refl revoke_succeeds)
      (Later.by_cleanup 11 after_revoke Later.none_called)
