-- ===== src/Auth/Session/Access.antt =====
-- Whom a session authenticates, the extension of its expiry, and Create followed by Authenticate.
use gas.Prelude.{
  String, string_eq, ◌==◌, false, ◌&&◌, Option, none, some, if◌then◌else◌, ℕ, ltb, ◌≡◌, inl, inr,
  refl, sym, ap, ◌∙◌, arith, Bool-cases,
}
use gas.Token.{add_duration}
use gas.Auth.{Principal, accepted, scheme_session}
use gas.Auth.Session.{
  SessionRow, Fetched, row, no_rows, query_error, Querier, Codec, Settings, Session, session_of,
  found, fetched, decoded, fetch, extended, admitted, authenticate,
}
use gas.Auth.Session.Table.{IsTable, extend_at}

module _ {M D : Type 0} (codec : Codec M) (q : Querier D) (cfg : Settings) (laws : IsTable q) where
  -- What an accepted request says of the row, and what it leaves in the table
  pub record Access (id : String) (now : ℕ) (d : D) (p : Principal M) (e : D) : Type 0 where
    pub the_row : SessionRow
    pub stored : laws.at d id ≡ some the_row
    pub in_time : ltb the_row.expires_at now ≡ false
    pub subject : p.subject ≡ the_row.subject
    pub credential : p.credential_id ≡ id
    pub scheme : p.scheme ≡ scheme_session
    pub metadata :
        (if the_row.metadata == "" then some codec.empty else codec.unmarshal the_row.metadata)
        ≡ some p.metadata
    pub after :
        (k : String)
        → laws.at e k ≡ (
            if cfg.extend_on_access && (id == k)
            then extend_at
                (laws.kept (add_duration now cfg.session_ttl))
                (laws.kept now)
                (laws.at d k)
            else laws.at d k)

  extended-accepted :
      (sess : Session M) (c : Option ℕ × D) (p : Principal M) (e : D)
      → extended codec q cfg sess c ≡ (accepted p, e)
      → (c ≡ (none, e))
        × (p ≡ record {
          subject = sess.subject;
          scheme = scheme_session;
          credential_id = sess.id;
          metadata = sess.metadata;
        })
  unfolding extended
  extended-accepted sess (some x, u) p e h = cc
  extended-accepted sess (none, u) p e h = (cc, cc)

  abbrev principal_of : Session M → Principal M
  principal_of sess = record {
    subject = sess.subject;
    scheme = scheme_session;
    credential_id = sess.id;
    metadata = sess.metadata;
  }

  Access-principal_of :
      (id : String) (now : ℕ) (d : D) (r : SessionRow) (m : M) (p : Principal M) (e : D)
      → laws.at d id ≡ some r
      → ltb r.expires_at now ≡ false
      → (if r.metadata == "" then some codec.empty else codec.unmarshal r.metadata) ≡ some m
      → p ≡ principal_of (session_of codec q cfg m r)
      → ((k : String)
          → laws.at e k ≡ (
              if cfg.extend_on_access && (id == k)
              then extend_at
                  (laws.kept (add_duration now cfg.session_ttl))
                  (laws.kept now)
                  (laws.at d k)
              else laws.at d k))
      → Access id now d p e
  Access-principal_of id now d r m p e stored live decodes is after = record {
    the_row = r;
    stored = stored;
    in_time = live;
    subject = ap (λ x. x.subject) is;
    credential = ap (λ x. x.credential_id) is ∙ laws.named d id r stored;
    scheme = ap (λ x. x.scheme) is;
    metadata = decodes ∙ ap some (sym (ap (λ x. x.metadata) is));
    after = after;
  }

  admitted-Access :
      (id : String) (now : ℕ) (d u : D) (r : SessionRow) (m : M) (p : Principal M) (e : D)
      → laws.at d id ≡ some r
      → ((k : String) → laws.at u k ≡ laws.at d k)
      → (if r.metadata == "" then some codec.empty else codec.unmarshal r.metadata) ≡ some m
      → admitted codec q cfg id now (found (session_of codec q cfg m r), u) ≡ (accepted p, e)
      → Access id now d p e
  unfolding admitted
  admitted-Access id now d u r m p e stored same decodes h =
      elim (Bool-cases (ltb r.expires_at now)) [
        | inl old ↦ ground (arith, old, h)
        | inr live ↦ elim (Bool-cases cfg.extend_on_access) [
          | inr plain ↦
              let (ran, is) =
                extended-accepted (session_of codec q cfg m r) (none, u) p e
                  (ground (arith, live, plain, h)) in
              Access-principal_of id now d r m p e stored live decodes is
                (λ k. ap (λ x. laws.at x.1 k) (sym ran) ∙ same k ∙ ground (arith, plain))
          | inl extends ↦
              let expires = add_duration now cfg.session_ttl in
              let (ran, is) =
                extended-accepted (session_of codec q cfg m r) (q.extend_session id expires now u) p
                  e (ground (arith, live, extends, h)) in
              Access-principal_of id now d r m p e stored live decodes is (λ k.
                ap (λ x. laws.at x.1 k) (sym ran)
                ∙ laws.extend_ok id expires now k u (ap (λ x. x.0) ran)
                ∙ ap (λ o. if id == k then extend_at (laws.kept expires) (laws.kept now) o else o)
                    (same k)
                ∙ ground (arith, extends))
        ]
      ]

  -- Authenticate accepts a request only for a session of the cookie's value that is in the table and
  -- has not expired; the principal has its subject, its id and its metadata and the scheme
  -- "session". Where the configuration says so, the expiry then is what the column keeps of the time
  -- of the access plus the TTL, and the last activity what it keeps of that time; nothing else in the
  -- table changes.
  pub authenticate-Access :
      (id : String) (now : ℕ) (d : D) (p : Principal M) (e : D)
      → authenticate codec q cfg (some id) now d ≡ (accepted p, e)
      → Access id now d p e
  unfolding authenticate fetch fetched decoded admitted
  authenticate-Access id now d p e h = elim (Bool-cases (id == "")) [
    | inl blank ↦ ground (arith, blank, h)
    | inr given ↦ answered (q.get_session id d).0 refl (ground (arith, given, h))
  ]
    where
      decodes :
          (r : SessionRow) (o : Option M)
          → laws.at d id ≡ some r
          → (if r.metadata == "" then some codec.empty else codec.unmarshal r.metadata) ≡ o
          → admitted codec q cfg id now (decoded codec q cfg r o, (q.get_session id d).1)
            ≡ (accepted p, e)
          → Access id now d p e
      decodes r none stored is k = cc
      decodes r (some m) stored is k =
          admitted-Access id now d (q.get_session id d).1 r m p e stored (λ j. laws.get_same id j d)
            is k

      answered :
          (f : Fetched SessionRow)
          → f ≡ (q.get_session id d).0
          → admitted codec q cfg id now (fetched codec q cfg f, (q.get_session id d).1)
            ≡ (accepted p, e)
          → Access id now d p e
      answered (row r) is k = decodes r _ (laws.get_row id d r (sym is)) refl k
      answered no_rows is k = cc
      answered (query_error x) is k = cc
