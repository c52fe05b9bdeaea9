-- ===== src/Auth/Session/Ended.antt =====
-- A session that has ended authenticates nobody.
use gas.Prelude.{
  String, string_eq, ◌==◌, true, Option, none, some, ℕ, ltb, ◌≡◌, ◌≢◌, inl, inr, refl, sym, ap, ◌∙◌,
  arith, Bool-cases, Option-cases, beq_refl,
}
use gas.Token.{add_duration}
use gas.Auth.{Principal, accepted, scheme_session}
use gas.Auth.Session.{
  SessionRow, Fetched, row, no_rows, query_error, Querier, Codec, Settings, Session, Found, found,
  missing, fetched, fetch, extended, admitted, authenticate, inserted, insert_session, create,
  revoke, revoke_all, revoke_all_by_scheme, cleanup,
}
use gas.Auth.Session.Table.{IsTable}

module _ {M D : Type 0} (codec : Codec M) (q : Querier D) (cfg : Settings) (laws : IsTable q) where
  -- Any calls of the service, except for a Create that draws the id `id`
  pub data Later (id : String) (d : D) : D → Type 0 where
    none_called : Later id d d
    by_create :
        (generated : Option String) (subject : String) (meta : Option M) (address agent : String)
        (now : ℕ) (e : D)
        → generated ≢ some id
        → Later id d e
        → Later id d (create codec q cfg generated subject meta address agent now e).1
    by_authenticate :
        (cookie : Option String) (now : ℕ) (e : D)
        → Later id d e
        → Later id d (authenticate codec q cfg cookie now e).1
    by_revoke : (p : Principal M) (e : D) → Later id d e → Later id d (revoke codec q cfg p e).1
    by_revoke_all :
        (subject : String) (e : D) → Later id d e → Later id d (revoke_all codec q cfg subject e).1
    by_scheme :
        (subject scheme : String) (e : D)
        → Later id d e
        → Later id d (revoke_all_by_scheme codec q cfg subject scheme e).1
    by_cleanup : (now : ℕ) (e : D) → Later id d e → Later id d (cleanup codec q cfg now e)

  -- There is no session `id`.
  abbrev Gone : String → D → Type 0
  Gone id d = laws.at d id ≡ none

  -- A statement keeps it, on both ends.
  Gone-statement :
      (id : String) (d : D) (c : Option ℕ × D)
      → Gone id d
      → (c.0 ≡ none → Gone id c.1)
      → ((e : ℕ) → c.0 ≡ some e → laws.at c.1 id ≡ laws.at d id)
      → Gone id c.1
  Gone-statement id d c gone done undone = elim (Option-cases c.0) [
    | inl ok ↦ done ok
    | inr (e, bad) ↦ undone e bad ∙ gone
  ]

  state-inserted : (sess : Session M) (c : Option ℕ × D) → (inserted codec q cfg sess c).1 ≡ c.1
  unfolding inserted
  state-inserted sess (none, d) = refl
  state-inserted sess (some e, d) = refl

  Gone-insert_session :
      (id : String) (sess : Session M) (d : D)
      → sess.id ≢ id
      → Gone id d
      → Gone id (insert_session codec q cfg sess d).1
  unfolding insert_session
  Gone-insert_session id sess d other gone = elim (Option-cases (codec.marshal sess.metadata)) [
    | inl unmarshalled ↦ simp (insert_session, unmarshalled) gone
    | inr (json, marshalled) ↦
        let r : SessionRow = record {
          id = sess.id;
          subject = sess.subject;
          metadata = json;
          ip_address = sess.ip_address;
          user_agent = sess.user_agent;
          created_at = sess.created_at;
          expires_at = sess.expires_at;
          last_active = sess.last_active;
        } in
        simp (insert_session, marshalled, state-inserted sess (q.insert_session r d))
          (Gone-statement id d (q.insert_session r d) gone
            (λ ok.
              ground (arith, laws.insert_ok r id d ok, gone, string_eq.eq_iff sess.id id, other))
            (λ e bad. laws.insert_err r id d e bad))
  ]

  Gone-create :
      (id : String) (generated : Option String) (subject : String) (meta : Option M)
      (address agent : String) (now : ℕ) (d : D)
      → generated ≢ some id
      → Gone id d
      → Gone id (create codec q cfg generated subject meta address agent now d).1
  unfolding create
  Gone-create id none subject meta address agent now d other gone = gone
  Gone-create id (some new) subject meta address agent now d other gone =
      Gone-insert_session id _ d (λ same. other (ap some same)) gone

  state-extended : (sess : Session M) (c : Option ℕ × D) → (extended codec q cfg sess c).1 ≡ c.1
  unfolding extended
  state-extended sess (none, d) = refl
  state-extended sess (some e, d) = refl

  Gone-admitted :
      (id cookie : String) (now : ℕ) (r : Found M) (d : D)
      → Gone id d
      → Gone id (admitted codec q cfg cookie now (r, d)).1
  unfolding admitted
  Gone-admitted id cookie now (missing e) d gone = gone
  Gone-admitted id cookie now (found sess) d gone = elim (Bool-cases (ltb sess.expires_at now)) [
    | inl expired ↦ simp (admitted, expired) gone
    | inr live ↦ elim (Bool-cases cfg.extend_on_access) [
      | inr plain ↦ simp (admitted, live, plain, state-extended sess (none, d)) gone
      | inl extends ↦
          simp
            (
              admitted,
              live,
              extends,
              state-extended sess
                  (q.extend_session cookie (add_duration now cfg.session_ttl) now d),
            )
            (Gone-statement id d (q.extend_session cookie (add_duration now cfg.session_ttl) now d)
              gone
              (λ ok.
                ground (
                  arith,
                  laws.extend_ok cookie (add_duration now cfg.session_ttl) now id d ok,
                  gone,
                ))
              (λ e bad. laws.extend_err cookie (add_duration now cfg.session_ttl) now id d e bad))
    ]
  ]

  Gone-authenticate :
      (id : String) (cookie : Option String) (now : ℕ) (d : D)
      → Gone id d
      → Gone id (authenticate codec q cfg cookie now d).1
  unfolding authenticate fetch
  Gone-authenticate id none now d gone = gone
  Gone-authenticate id (some c) now d gone = elim (Bool-cases (c == "")) [
    | inl blank ↦ simp (authenticate, blank) gone
    | inr given ↦
        simp (authenticate, given)
          (Gone-admitted id c now (fetch codec q cfg c d).0 (fetch codec q cfg c d).1
            (laws.get_same c id d ∙ gone))
  ]

  Gone-revoke_all :
      (id subject : String) (d : D) → Gone id d → Gone id (revoke_all codec q cfg subject d).1
  unfolding revoke_all
  Gone-revoke_all id subject d gone =
      Gone-statement id d (q.delete_sessions_by_subject subject d) gone
        (λ ok. ground (arith, laws.by_subject_ok subject id d ok, gone))
        (λ e bad. laws.by_subject_err subject id d e bad)

  Gone-Later : (id : String) (d e : D) → Gone id d → Later id d e → Gone id e
  unfolding revoke revoke_all revoke_all_by_scheme cleanup
  Gone-Later id d _ gone none_called = gone
  Gone-Later id d _ gone (by_create generated subject meta address agent now e other before) =
      Gone-create id generated subject meta address agent now e other
        (Gone-Later id d e gone before)
  Gone-Later id d _ gone (by_authenticate cookie now e before) =
      Gone-authenticate id cookie now e (Gone-Later id d e gone before)
  Gone-Later id d _ gone (by_revoke p e before) =
      let still = Gone-Later id d e gone before in
      Gone-statement id e (q.delete_session p.credential_id e) still
        (λ ok. ground (arith, laws.delete_ok p.credential_id id e ok, still))
        (λ x bad. laws.delete_err p.credential_id id e x bad)
  Gone-Later id d _ gone (by_revoke_all subject e before) =
      Gone-revoke_all id subject e (Gone-Later id d e gone before)
  Gone-Later id d _ gone (by_scheme subject scheme e before) =
      elim (Bool-cases (scheme == scheme_session)) [
        | inl same ↦
            simp (revoke_all_by_scheme, same)
              (Gone-revoke_all id subject e (Gone-Later id d e gone before))
        | inr other ↦ simp (revoke_all_by_scheme, other) (Gone-Later id d e gone before)
      ]
  Gone-Later id d _ gone (by_cleanup now e before) =
      let still = Gone-Later id d e gone before in
      Gone-statement id e (q.delete_expired_sessions now e) still
        (λ ok. ground (arith, laws.expired_ok now id e ok, still))
        (λ x bad. laws.expired_err now id e x bad)

  rejected-Gone :
      (id : String) (now : ℕ) (d : D) (p : Principal M)
      → Gone id d
      → (authenticate codec q cfg (some id) now d).0 ≢ accepted p
  unfolding authenticate fetch admitted fetched
  rejected-Gone id now d p gone h = elim (Bool-cases (id == "")) [
    | inl blank ↦ ground (arith, blank, h)
    | inr given ↦ answered (q.get_session id d).0 refl (ground (arith, given, h))
  ]
    where
      answered :
          (f : Fetched SessionRow)
          → f ≡ (q.get_session id d).0
          → (admitted codec q cfg id now (fetched codec q cfg f, (q.get_session id d).1)).0
            ≢ accepted p
      answered (row r) e k = ground (arith, laws.get_row id d r (sym e), gone)
      answered no_rows e k = cc
      answered (query_error x) e k = cc

  -- How a session `id` ends: Revoke of a principal that it identified, RevokeAll or RevokeAllByScheme
  -- of its subject, or a cleanup at a time that the column keeps as one after its expiry, each without an error of the database.
  pub data Ends (id : String) (d : D) : D → Type 0 where
    revoked :
        (p : Principal M)
        → p.credential_id ≡ id
        → (revoke codec q cfg p d).0 ≡ none
        → Ends id d (revoke codec q cfg p d).1
    all_revoked :
        (r : SessionRow)
        → laws.at d id ≡ some r
        → (revoke_all codec q cfg r.subject d).0 ≡ none
        → Ends id d (revoke_all codec q cfg r.subject d).1
    scheme_revoked :
        (r : SessionRow)
        → laws.at d id ≡ some r
        → (revoke_all_by_scheme codec q cfg r.subject scheme_session d).0 ≡ none
        → Ends id d (revoke_all_by_scheme codec q cfg r.subject scheme_session d).1
    cleaned_up :
        (now : ℕ) (r : SessionRow)
        → laws.at d id ≡ some r
        → ltb r.expires_at (laws.kept now) ≡ true
        → (q.delete_expired_sessions now d).0 ≡ none
        → Ends id d (cleanup codec q cfg now d)

  Gone-Ends : (id : String) (d e : D) → Ends id d e → Gone id e
  unfolding revoke revoke_all revoke_all_by_scheme cleanup
  Gone-Ends id d _ (revoked p same ok) =
      ground (
        arith,
        laws.delete_ok p.credential_id id d ok,
        (string_eq.eq_iff p.credential_id id).1 same,
      )
  Gone-Ends id d _ (all_revoked r there ok) =
      ground (arith, laws.by_subject_ok r.subject id d ok, there, beq_refl r.subject)
  Gone-Ends id d _ (scheme_revoked r there ok) =
      ground (arith, laws.by_subject_ok r.subject id d ok, there, beq_refl r.subject)
  Gone-Ends id d _ (cleaned_up now r there old ok) =
      ground (arith, laws.expired_ok now id d ok, there, old)

  -- Once a session has ended, by Revoke, RevokeAll, RevokeAllByScheme or a cleanup after its expiry,
  -- its id authenticates nobody at any later time, whatever calls of the service come in between, as
  -- long as no Create draws that id again.
  pub ended_rejected :
      (id : String) (d e f : D) (now : ℕ) (p : Principal M)
      → Ends id d e
      → Later id e f
      → (authenticate codec q cfg (some id) now f).0 ≢ accepted p
  ended_rejected id d e f now p ends later =
      rejected-Gone id now f p (Gone-Later id e f (Gone-Ends id d e ends) later)
