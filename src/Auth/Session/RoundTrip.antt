-- ===== src/Auth/Session/RoundTrip.antt =====
-- Create followed by Authenticate.
use gas.Prelude.{
  String, string_eq, ◌==◌, false, Option, none, some, ℕ, ◌+◌, ◌≤◌, ltb, ◌≡◌, ◌≢◌, inl, inr, refl,
  sym, ap, ◌∙◌, subst, arith, Bool-cases, Option-cases, beq_refl,
}
use gas.Token.{add_duration}
use gas.Auth.{accepted, scheme_session}
use gas.Auth.Session.{
  SessionRow, Fetched, row, no_rows, query_error, Querier, Codec, Settings, Session, session_of,
  found, created, fetched, decoded, fetch, extended, admitted, authenticate, inserted,
  insert_session, create,
}
use gas.Auth.Session.Table.{IsTable, kept_row}

-- Metadata that survives its JSON and the column: what the column keeps of the JSON is not empty, and
-- is decoded to the same metadata. Maps of strings do; an int does not, which comes back as a float64.
pub record Survives {M : Type 0} (codec : Codec M) (kept_text : String → String) (m : M)
    : Type 0 where
  pub decodes :
      (json : String) → codec.marshal m ≡ some json → codec.unmarshal (kept_text json) ≡ some m
  pub nonempty : (json : String) → codec.marshal m ≡ some json → (kept_text json == "") ≡ false

some_eq : {a b : SessionRow} → some a ≡ some b → a ≡ b
some_eq h = cc

module _ {M D : Type 0} (codec : Codec M) (q : Querier D) (cfg : Settings) (laws : IsTable q) where
  abbrev row_of : String → Session M → SessionRow
  row_of json sess = record {
    id = sess.id;
    subject = sess.subject;
    metadata = json;
    ip_address = sess.ip_address;
    user_agent = sess.user_agent;
    created_at = sess.created_at;
    expires_at = sess.expires_at;
    last_active = sess.last_active;
  }

  -- The row of a session, as the table holds it, and the session that is read from it
  abbrev held_row : String → Session M → SessionRow
  held_row json sess = kept_row laws.kept laws.kept_text (row_of json sess)

  abbrev read_back : String → Session M → Session M
  read_back json sess = session_of codec q cfg sess.metadata (held_row json sess)

  inserted-created :
      (sess new : Session M) (c : Option ℕ × D) (e : D)
      → inserted codec q cfg sess c ≡ (created new, e)
      → (c ≡ (none, e)) × (sess ≡ new)
  unfolding inserted
  inserted-created sess new (some x, u) e h = cc
  inserted-created sess new (none, u) e h = (cc, cc)

  insert_session-stored :
      (sess new : Session M) (d e : D)
      → insert_session codec q cfg sess d ≡ (created new, e)
      → (json : String) × (codec.marshal sess.metadata ≡ some json)
        × (laws.at e sess.id ≡ some (held_row json sess))
        × (sess ≡ new)
  unfolding insert_session
  insert_session-stored sess new d e h = elim (Option-cases (codec.marshal sess.metadata)) [
    | inl fails ↦ ground (arith, fails, h)
    | inr (json, marshalled) ↦
        let (ran, same) =
          inserted-created sess new (q.insert_session (row_of json sess) d) e
            (ground (arith, marshalled, h)) in
        (
          json,
          marshalled,
          ap (λ x. laws.at x.1 sess.id) (sym ran)
              ∙ laws.insert_ok (row_of json sess) sess.id d (ap (λ x. x.0) ran)
              ∙ ground (arith, beq_refl sess.id),
          same,
        )
  ]

  -- A session in the table, before its expiry, is accepted where the database does not fail.
  authenticate-stored :
      (sess : Session M) (json : String) (later : ℕ) (e : D)
      → sess.id ≢ ""
      → codec.marshal sess.metadata ≡ some json
      → laws.at e sess.id ≡ some (held_row json sess)
      → later + laws.precision ≤ sess.expires_at
      → Survives codec laws.kept_text sess.metadata
      → ((x : ℕ) → (q.get_session sess.id e).0 ≢ query_error x)
      → (q.extend_session sess.id
          (add_duration later cfg.session_ttl)
          later
          (q.get_session sess.id e).1).0
        ≡ none
      → (authenticate codec q cfg (some sess.id) later e).0
        ≡ accepted (record {
          subject = sess.subject;
          scheme = scheme_session;
          credential_id = sess.id;
          metadata = sess.metadata;
        })
  unfolding authenticate fetch fetched decoded admitted extended
  authenticate-stored sess json later e named marshalled stored in_time survives answers extends =
      let given : (sess.id == "") ≡ false = ground (arith, named, string_eq.eq_iff sess.id "") in
      simp (authenticate, given) (got (q.get_session sess.id e).0 refl)
    where
      live : ltb (laws.kept sess.expires_at) later ≡ false
      live = ground (arith, laws.kept_close sess.expires_at, in_time)

      kept :
          (c : Option ℕ × D)
          → c.0 ≡ none
          → (extended codec q cfg (read_back json sess) c).0
            ≡ accepted (record {
              subject = sess.subject;
              scheme = scheme_session;
              credential_id = sess.id;
              metadata = sess.metadata;
            })
      kept (none, u) h = refl
      kept (some x, u) h = cc

      let_in :
          (admitted codec q cfg sess.id later
            (found (read_back json sess), (q.get_session sess.id e).1)).0
          ≡ accepted (record {
            subject = sess.subject;
            scheme = scheme_session;
            credential_id = sess.id;
            metadata = sess.metadata;
          })
      let_in = elim (Bool-cases cfg.extend_on_access) [
        | inl on ↦ simp (admitted, live, on) (kept _ extends)
        | inr off ↦ simp (admitted, live, off) (kept (none, (q.get_session sess.id e).1) refl)
      ]

      got :
          (f : Fetched SessionRow)
          → f ≡ (q.get_session sess.id e).0
          → (admitted codec q cfg sess.id later
              (fetched codec q cfg f, (q.get_session sess.id e).1)).0
            ≡ accepted (record {
              subject = sess.subject;
              scheme = scheme_session;
              credential_id = sess.id;
              metadata = sess.metadata;
            })
      got (query_error x) h = absurd (answers x (sym h))
      got no_rows h = ground (arith, laws.get_none sess.id e (sym h), stored)
      got (row r) h =
          let is : held_row json sess ≡ r =
            some_eq (sym stored ∙ laws.get_row sess.id e r (sym h)) in
          subst
            (λ x.
              (admitted codec q cfg sess.id later
                (fetched codec q cfg (row x), (q.get_session sess.id e).1)).0
              ≡ accepted (record {
                subject = sess.subject;
                scheme = scheme_session;
                credential_id = sess.id;
                metadata = sess.metadata;
              }))
            is
            (simp
              (
                fetched,
                decoded,
                survives.nonempty json marshalled,
                survives.decodes json marshalled,
              )
              let_in)

  -- A session that Create answers is accepted by Authenticate up to its expiry less the precision of
  -- the column, with the subject and the metadata that it was created with, where the metadata
  -- survives its JSON and the database does not fail.
  pub authenticate-create :
      (id subject : String) (meta : Option M) (address agent : String) (now later : ℕ) (d e : D)
      (sess : Session M)
      → create codec q cfg (some id) subject meta address agent now d ≡ (created sess, e)
      → id ≢ ""
      → later + laws.precision ≤ add_duration now cfg.session_ttl
      → Survives codec laws.kept_text (elim meta [ none ↦ codec.empty | some m ↦ m ])
      → ((x : ℕ) → (q.get_session id e).0 ≢ query_error x)
      → (q.extend_session id (add_duration later cfg.session_ttl) later (q.get_session id e).1).0
        ≡ none
      → (authenticate codec q cfg (some id) later e).0
        ≡ accepted (record {
          subject = subject;
          scheme = scheme_session;
          credential_id = id;
          metadata = (elim meta [ none ↦ codec.empty | some m ↦ m ]);
        })
  unfolding create
  authenticate-create id subject meta address agent now later d e sess h named in_time survives
        answers extends =
      let new : Session M = record {
        id = id;
        subject = subject;
        metadata = (elim meta [ none ↦ codec.empty | some m ↦ m ]);
        ip_address = address;
        user_agent = agent;
        created_at = now;
        expires_at = add_duration now cfg.session_ttl;
        last_active = now;
      } in
      let (json, marshalled, stored, same) = insert_session-stored new sess d e h in
      authenticate-stored new json later e named marshalled stored in_time survives answers extends
