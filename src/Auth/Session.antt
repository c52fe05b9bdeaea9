-- ===== src/Auth/Session.antt =====
-- auth/session/session.go over auth/session/db/store.go. Metadata is in `M`, and its JSON is the
-- encoder and decoder that the section takes; times are counted from some start.
pub mod Table
pub mod Ended
pub mod Access
pub mod RoundTrip
pub mod Tests
use gas.Prelude.{
  String, string_eq, ◌==◌, Bool, true, false, not, Option, none, some, List, [], ◌∷◌, if◌then◌else◌,
  ℕ, ℤ, ltb,
}
use gas.Token.{add_duration}
use gas.Auth.{
  Principal, AuthError, unauthenticated, credentials_expired, failed, Verdict, accepted, rejected,
  scheme_session,
}

-- sessionRow
pub record SessionRow : Type 0 where
  pub id : String
  pub subject : String
  pub metadata : String
  pub ip_address : String
  pub user_agent : String
  pub created_at : ℕ
  pub expires_at : ℕ
  pub last_active : ℕ

-- Session, as the store and the service have it
pub record Session (M : Type 0) : Type 0 where
  pub id : String
  pub subject : String
  pub metadata : M
  pub ip_address : String
  pub user_agent : String
  pub created_at : ℕ
  pub expires_at : ℕ
  pub last_active : ℕ

-- What a query answers
pub data Fetched (A : Type 0) : Type 0 where
  row : A → Fetched A
  no_rows : Fetched A
  query_error : ℕ → Fetched A

-- querier, over the states `D` of the database; an error is a number.
pub record Querier (D : Type 0) : Type 0 where
  pub get_session : String → D → Fetched SessionRow × D
  pub insert_session : SessionRow → D → Option ℕ × D
  pub extend_session : String → ℕ → ℕ → D → Option ℕ × D
  pub delete_session : String → D → Option ℕ × D
  pub delete_sessions_by_subject : String → D → Option ℕ × D
  pub delete_expired_sessions : ℕ → D → Option ℕ × D

pub record Settings : Type 0 where
  pub session_ttl : ℤ
  pub extend_on_access : Bool

-- encoding/json on metadata, with the empty map
pub record Codec (M : Type 0) : Type 0 where
  pub empty : M
  pub marshal : M → Option String
  pub unmarshal : String → Option M

pub data SessionError : Type 0 where
  generate_failed marshal_failed : SessionError
  insert_failed : ℕ → SessionError

pub data Created (M : Type 0) : Type 0 where
  created : Session M → Created M
  not_created : SessionError → Created M

-- What GetSession answers
pub data Found (M : Type 0) : Type 0 where
  found : Session M → Found M
  missing : AuthError → Found M

module _ {M D : Type 0} (codec : Codec M) (q : Querier D) (cfg : Settings) where
  abbrev pub session_of : M → SessionRow → Session M
  session_of m r = record {
    id = r.id;
    subject = r.subject;
    metadata = m;
    ip_address = r.ip_address;
    user_agent = r.user_agent;
    created_at = r.created_at;
    expires_at = r.expires_at;
    last_active = r.last_active;
  }

  unfoldable pub decoded : SessionRow → Option M → Found M
  decoded r none = missing (failed 0)
  decoded r (some m) = found (session_of m r)

  unfoldable pub fetched : Fetched SessionRow → Found M
  unfolding decoded
  fetched (query_error e) = missing (failed e)
  fetched no_rows = missing unauthenticated
  fetched (row r) =
      decoded r (if r.metadata == "" then some codec.empty else codec.unmarshal r.metadata)

  -- The tail of Authenticate, behind ExtendSession
  unfoldable pub extended : Session M → Option ℕ × D → Verdict M × D
  extended sess (some e, d) = (rejected (failed e), d)
  extended sess (none, d) = (
    accepted (record {
      subject = sess.subject;
      scheme = scheme_session;
      credential_id = sess.id;
      metadata = sess.metadata;
    }),
    d,
  )

  unfoldable pub admitted : String → ℕ → Found M × D → Verdict M × D
  unfolding extended
  admitted id now (missing e, d) = (rejected e, d)
  admitted id now (found sess, d) =
      if ltb sess.expires_at now
      then (rejected credentials_expired, d)
      else extended sess (
          if cfg.extend_on_access
          then q.extend_session id (add_duration now cfg.session_ttl) now d
          else (none, d))

  unfoldable pub fetch : String → D → Found M × D
  unfolding fetched
  fetch id d = (fetched (q.get_session id d).0, (q.get_session id d).1)

  -- Authenticate; the cookie's value is `none` where there is no cookie.
  unfoldable pub authenticate : Option String → ℕ → D → Verdict M × D
  unfolding admitted fetch
  authenticate none now d = (rejected unauthenticated, d)
  authenticate (some id) now d =
      if id == "" then (rejected unauthenticated, d) else admitted id now (fetch id d)

  unfoldable pub inserted : Session M → Option ℕ × D → Created M × D
  inserted sess (some e, d) = (not_created (insert_failed e), d)
  inserted sess (none, d) = (created sess, d)

  -- InsertSession
  unfoldable pub insert_session : Session M → D → Created M × D
  unfolding inserted
  insert_session sess d = elim (codec.marshal sess.metadata) [
    | none ↦ (not_created marshal_failed, d)
    | some json ↦ inserted sess (
        q.insert_session
          (record {
            id = sess.id;
            subject = sess.subject;
            metadata = json;
            ip_address = sess.ip_address;
            user_agent = sess.user_agent;
            created_at = sess.created_at;
            expires_at = sess.expires_at;
            last_active = sess.last_active;
          })
          d)
  ]

  -- Create; `generated` is what RandomString answers, and `meta` is `none` for nil.
  unfoldable pub create :
      Option String → String → Option M → String → String → ℕ → D → Created M × D
  unfolding insert_session
  create none subject meta address agent now d = (not_created generate_failed, d)
  create (some id) subject meta address agent now d =
      insert_session
        (record {
          id = id;
          subject = subject;
          metadata = (elim meta [ none ↦ codec.empty | some m ↦ m ]);
          ip_address = address;
          user_agent = agent;
          created_at = now;
          expires_at = add_duration now cfg.session_ttl;
          last_active = now;
        })
        d

  -- Revoke, of a principal
  unfoldable pub revoke : Principal M → D → Option ℕ × D
  revoke p d = q.delete_session p.credential_id d

  unfoldable pub revoke_all : String → D → Option ℕ × D
  revoke_all subject d = q.delete_sessions_by_subject subject d

  unfoldable pub revoke_all_by_scheme : String → String → D → Option ℕ × D
  unfolding revoke_all
  revoke_all_by_scheme subject scheme d =
      if scheme == scheme_session then revoke_all subject d else (none, d)

  -- One tick of cleanupLoop; an error is only logged.
  unfoldable pub cleanup : ℕ → D → D
  cleanup now d = (q.delete_expired_sessions now d).1
