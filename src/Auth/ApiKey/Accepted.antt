-- ===== src/Auth/ApiKey/Accepted.antt =====
-- Whom an API key authenticates.
use gas.Prelude.{
  String, string_eq, ◌==◌, false, Option, none, some, if◌then◌else◌, ℕ, ◌≡◌, inl, inr, refl, sym,
  ap, ◌∙◌, arith, Bool-cases,
}
use gas.Auth.{Principal, accepted, scheme_api_key}
use gas.Auth.ApiKey.{
  is_expired, Key, KeyRow, with_decoded, Fetched, row, no_rows, query_error, Querier, Codec,
  fetched, decoded, fetch, updated, admitted, authenticate,
}
use gas.Auth.ApiKey.Keys.{IsTable, set_last_used, is_revoked}

module _ {M D : Type 0} (codec : Codec M) (hash : String → String) (q : Querier D)
    (laws : IsTable q) where
  -- What an accepted key says of its row, and what it leaves in the table
  pub record KeyAccess (key : String) (now used : ℕ) (d : D) (p : Principal M) (e : D)
      : Type 0 where
    pub the_row : KeyRow
    pub metadata : M
    pub stored : laws.at d the_row.id ≡ some the_row
    pub of_key : the_row.key_hash ≡ hash key
    pub active : is_revoked the_row ≡ false
    pub in_time : is_expired the_row.expires_at now ≡ false
    pub decodes : codec.unmarshal the_row.metadata ≡ some metadata
    pub is : p ≡ record {
      subject = the_row.subject;
      scheme = scheme_api_key;
      credential_id = the_row.id;
      metadata = codec.with_scopes the_row.scopes metadata;
    }
    pub after :
        (k : String)
        → laws.at e k
          ≡ (if the_row.id == k then set_last_used (laws.kept used) (laws.at d k) else laws.at d k)

  updated-accepted :
      (k : Key M) (c : Option ℕ × D) (p : Principal M) (e : D)
      → updated codec hash q k c ≡ (accepted p, e)
      → (c ≡ (none, e))
        × (p ≡ record {
          subject = k.subject;
          scheme = scheme_api_key;
          credential_id = k.id;
          metadata = codec.with_scopes k.scopes k.metadata;
        })
  unfolding updated
  updated-accepted k (some x, u) p e h = cc
  updated-accepted k (none, u) p e h = (cc, cc)

  -- Authenticate accepts a key only where the table has a row of its hash that is neither revoked nor
  -- expired; the principal has the row's subject, id, metadata and scopes and the scheme "apikey".
  -- The row's last use then is what the column keeps of the time that Authenticate took for it, and
  -- nothing else changes.
  pub authenticate-KeyAccess :
      (key : String) (now used : ℕ) (d : D) (p : Principal M) (e : D)
      → authenticate codec hash q key now used d ≡ (accepted p, e)
      → KeyAccess key now used d p e
  unfolding authenticate fetch fetched decoded admitted
  authenticate-KeyAccess key now used d p e h = elim (Bool-cases (key == "")) [
    | inl blank ↦ ground (arith, blank, h)
    | inr given ↦ answered (q.get_key_by_hash (hash key) d).0 refl (ground (arith, given, h))
  ]
    where
      let_in :
          (r : KeyRow) (o : Option M)
          → (q.get_key_by_hash (hash key) d).0 ≡ row r
          → codec.unmarshal r.metadata ≡ o
          → admitted codec hash q now used
              (decoded codec hash q r o, (q.get_key_by_hash (hash key) d).1)
            ≡ (accepted p, e)
          → KeyAccess key now used d p e
      let_in r none got decodes k = cc
      let_in r (some m) got decodes k = elim (Bool-cases (is_expired r.expires_at now)) [
        | inl old ↦ ground (arith, old, k)
        | inr live ↦
            let (stored, of_key, active) = laws.get_row (hash key) d r got in
            let u = (q.get_key_by_hash (hash key) d).1 in
            let (ran, is) =
              updated-accepted (with_decoded r m) (q.update_last_used r.id used u) p e
                (ground (arith, live, k)) in
            record {
              the_row = r;
              metadata = m;
              stored = stored;
              of_key = of_key;
              active = active;
              in_time = live;
              decodes = decodes;
              is = is;
              after = λ j.
                  ap (λ x. laws.at x.1 j) (sym ran)
                  ∙ laws.used_ok r.id used j u (ap (λ x. x.0) ran)
                  ∙ ap (λ o. if r.id == j then set_last_used (laws.kept used) o else o)
                      (laws.get_same (hash key) j d);
            }
      ]

      answered :
          (f : Fetched KeyRow)
          → f ≡ (q.get_key_by_hash (hash key) d).0
          → admitted codec hash q now used
              (fetched codec hash q f, (q.get_key_by_hash (hash key) d).1)
            ≡ (accepted p, e)
          → KeyAccess key now used d p e
      answered (row r) is k = let_in r (codec.unmarshal r.metadata) (sym is) refl k
      answered no_rows is k = cc
      answered (query_error x) is k = cc
