-- ===== src/Auth/ApiKey.antt =====
-- auth/apikey/apikey.go over auth/apikey/db/store.go. Metadata is in `M`, and its JSON is the codec that
-- the section takes; so is the hash. Strings are measured in bytes.
pub mod Keys
pub mod Dead
pub mod Revoked
pub mod Accepted
pub mod Tests
use Prim.Native.Char.{Char, code}
use Prim.Native.String.{len, slice, ◌++◌}
use gas.Prelude.{
  String, string_eq, ◌==◌, Bool, true, false, not, ◌||◌, nat_eq, Option, none, some, List, [], ◌∷◌,
  if◌then◌else◌, ℕ, ◌+◌, ℤ, ltb, is_positive,
}
use gas.Token.{add_duration}
use gas.Auth.{
  Principal, AuthError, unauthenticated, credentials_expired, failed, Verdict, accepted, rejected,
  scheme_api_key,
}

-- keyRow, and KeyInfo where `metadata` is decoded
pub record Key (A : Type 0) : Type 0 where
  pub id : String
  pub subject : String
  pub name : String
  pub key_hash : String
  pub key_prefix : String
  pub scopes : List String
  pub metadata : A
  pub created_at : ℕ
  pub last_used : Option ℕ
  pub expires_at : Option ℕ
  pub deleted_at : Option ℕ

abbrev pub KeyRow : Type 0
KeyRow = Key String

pub data Fetched (A : Type 0) : Type 0 where
  row : A → Fetched A
  no_rows : Fetched A
  query_error : ℕ → Fetched A

-- querier, over the states `D` of the database; an error is a number.
pub record Querier (D : Type 0) : Type 0 where
  pub get_key_by_hash : String → D → Fetched KeyRow × D
  pub update_last_used : String → ℕ → D → Option ℕ × D
  pub insert_key : KeyRow → D → Option ℕ × D
  pub soft_delete_key_by_id : String → ℕ → D → Option ℕ × D
  pub soft_delete_keys_by_subject : String → ℕ → D → Option ℕ × D
  pub hard_delete_key_by_id : String → D → Option ℕ × D
  pub hard_delete_keys_by_subject : String → D → Option ℕ × D
  pub list_keys_by_subject : String → D → Option (List KeyRow) × D
  pub list_all_keys_by_subject : String → D → Option (List KeyRow) × D

-- encoding/json on the map of the metadata; `with_scopes` sets PrincipalMetadataKeyScopes.
pub record Codec (M : Type 0) : Type 0 where
  pub empty : M
  pub is_empty : M → Bool
  pub marshal : M → Option String
  pub unmarshal : String → Option M
  pub with_scopes : List String → M → M

pub record Settings : Type 0 where
  pub prefix : String

pub data Found (M : Type 0) : Type 0 where
  found : Key M → Found M
  missing : AuthError → Found M

pub data GenerateOption (M : Type 0) : Type 0 where
  with_metadata : M → GenerateOption M
  with_ttl : ℤ → ℕ → GenerateOption M
  with_expires_at : Option ℕ → GenerateOption M

pub record GenerateOptions (M : Type 0) : Type 0 where
  pub expires_at : Option ℕ
  pub metadata : M

-- One option; WithTTL carries the time at which it is applied, and WithExpiresAt `none` for the zero
-- time.
unfoldable pub apply_option :
    {M : Type 0} → GenerateOption M → GenerateOptions M → GenerateOptions M
apply_option (with_metadata m) o = record o { metadata = m }
apply_option (with_ttl ttl now) o =
    if is_positive ttl then record o { expires_at = some (add_duration now ttl) } else o
apply_option (with_expires_at none) o = o
apply_option (with_expires_at (some t)) o = record o { expires_at = some t }

unfoldable pub apply_options :
    {M : Type 0} → List (GenerateOption M) → GenerateOptions M → GenerateOptions M
unfolding apply_option
apply_options [] o = o
apply_options (x ∷ xs) o = apply_options xs (apply_option x o)

pub data GenerateError : Type 0 where
  random_failed marshal_failed : GenerateError
  has_comma : String → GenerateError
  insert_failed : ℕ → GenerateError

-- The end of Generate; slicing a key that is too short panics.
pub data Generated (M : Type 0) : Type 0 where
  generated : String → Key M → Generated M
  not_generated : GenerateError → Generated M
  slice_panics : Generated M

-- strings.Contains(scope, ",")
unfoldable pub has_comma_in : String → Bool
has_comma_in String.[] = false
has_comma_in (String.◌∷◌ c s) = code c == 44 || has_comma_in s

-- The first scope with a comma
unfoldable pub find_comma : List String → Option String
unfolding has_comma_in
find_comma [] = none
find_comma (scope ∷ scopes) = if has_comma_in scope then some scope else find_comma scopes

abbrev pub is_expired : Option ℕ → ℕ → Bool
is_expired none now = false
is_expired (some t) now = ltb t now

-- The row with its metadata decoded
abbrev pub with_decoded : {M : Type 0} → KeyRow → M → Key M
with_decoded r m = record {
  id = r.id;
  subject = r.subject;
  name = r.name;
  key_hash = r.key_hash;
  key_prefix = r.key_prefix;
  scopes = r.scopes;
  metadata = m;
  created_at = r.created_at;
  last_used = r.last_used;
  expires_at = r.expires_at;
  deleted_at = r.deleted_at;
}

module _ {M D : Type 0} (codec : Codec M) (hash : String → String) (q : Querier D) where
  unfoldable pub decoded : KeyRow → Option M → Found M
  decoded r none = missing (failed 0)
  decoded r (some m) = found (with_decoded r m)

  unfoldable pub fetched : Fetched KeyRow → Found M
  unfolding decoded
  fetched (query_error e) = missing (failed e)
  fetched no_rows = missing unauthenticated
  fetched (row r) = decoded r (codec.unmarshal r.metadata)

  -- GetKeyByHash
  unfoldable pub fetch : String → D → Found M × D
  unfolding fetched
  fetch h d = (fetched (q.get_key_by_hash h d).0, (q.get_key_by_hash h d).1)

  -- The tail of Authenticate, behind UpdateLastUsed
  unfoldable pub updated : Key M → Option ℕ × D → Verdict M × D
  updated k (some e, d) = (rejected (failed e), d)
  updated k (none, d) = (
    accepted (record {
      subject = k.subject;
      scheme = scheme_api_key;
      credential_id = k.id;
      metadata = codec.with_scopes k.scopes k.metadata;
    }),
    d,
  )

  unfoldable pub admitted : ℕ → ℕ → Found M × D → Verdict M × D
  unfolding updated
  admitted now used (missing e, d) = (rejected e, d)
  admitted now used (found k, d) =
      if is_expired k.expires_at now
      then (rejected credentials_expired, d)
      else updated k (q.update_last_used k.id used d)

  -- Authenticate; `key` is what the header holds, `now` the time at which the expiry is checked, and
  -- `used` the time that is stored as the last use.
  unfoldable pub authenticate : String → ℕ → ℕ → D → Verdict M × D
  unfolding admitted fetch
  authenticate key now used d =
      if key == "" then (rejected unauthenticated, d) else admitted now used (fetch (hash key) d)

  unfoldable pub revoke : Principal M → ℕ → D → Option ℕ × D
  revoke p now d = q.soft_delete_key_by_id p.credential_id now d

  unfoldable pub revoke_all : String → ℕ → D → Option ℕ × D
  revoke_all subject now d = q.soft_delete_keys_by_subject subject now d

  unfoldable pub delete : Principal M → D → Option ℕ × D
  delete p d = q.hard_delete_key_by_id p.credential_id d

  unfoldable pub delete_all : String → D → Option ℕ × D
  delete_all subject d = q.hard_delete_keys_by_subject subject d

  unfoldable pub revoke_all_by_scheme : String → String → ℕ → D → Option ℕ × D
  unfolding revoke_all
  revoke_all_by_scheme subject scheme now d =
      if scheme == scheme_api_key then revoke_all subject now d else (none, d)

  abbrev pub key_row : Key M → String → KeyRow
  key_row k json = record {
    id = k.id;
    subject = k.subject;
    name = k.name;
    key_hash = k.key_hash;
    key_prefix = k.key_prefix;
    scopes = k.scopes;
    metadata = json;
    created_at = k.created_at;
    last_used = none;
    expires_at = k.expires_at;
    deleted_at = none;
  }

  unfoldable pub inserted : String → Key M → Option ℕ × D → Generated M × D
  inserted full k (some e, d) = (not_generated (insert_failed e), d)
  inserted full k (none, d) = (generated full k, d)

  unfoldable pub marshal_metadata : M → Option String
  marshal_metadata m = if codec.is_empty m then some "{}" else codec.marshal m

  -- Generate behind the key's random part: `full` is the prefix with it.
  unfoldable pub generate_from :
      Settings
      → String
      → String
      → String
      → String
      → List String
      → GenerateOptions M
      → ℕ
      → D
      → Generated M × D
  unfolding inserted marshal_metadata find_comma
  generate_from cfg full id subject name scopes o now d =
      if ltb (len full) (len cfg.prefix + 8) then (slice_panics, d) else elim (find_comma scopes) [
        | some scope ↦ (not_generated (has_comma scope), d)
        | none ↦ elim (marshal_metadata o.metadata) [
          | none ↦ (not_generated marshal_failed, d)
          | some json ↦
              let k : Key M = record {
                id = id;
                subject = subject;
                name = name;
                key_hash = hash full;
                key_prefix = slice full 0 (len cfg.prefix + 8);
                scopes = scopes;
                metadata = o.metadata;
                created_at = now;
                last_used = none;
                expires_at = o.expires_at;
                deleted_at = none;
              } in
              inserted full k (q.insert_key (key_row k json) d)
        ]
      ]

  -- Generate; `raw` is what RandomString answers, and `id` the new UUID.
  unfoldable pub generate :
      Settings
      → Option String
      → String
      → String
      → String
      → List String
      → List (GenerateOption M)
      → ℕ
      → D
      → Generated M × D
  unfolding generate_from apply_options
  generate cfg none id subject name scopes opts now d = (not_generated random_failed, d)
  generate cfg (some raw) id subject name scopes opts now d =
      generate_from cfg (cfg.prefix ++ raw) id subject name scopes
        (apply_options opts (record { expires_at = none; metadata = codec.empty })) now d

  -- The loop of ListKeysBySubject: the first metadata that is no JSON ends it.
  unfoldable pub decode_all : List KeyRow → Option (List (Key M))
  decode_all [] = some []
  decode_all (r ∷ rows) =
      let rest = decode_all rows in
      elim (codec.unmarshal r.metadata) [
        | none ↦ none
        | some m ↦ (elim rest [ none ↦ none | some ks ↦ some (with_decoded r m ∷ ks) ])
      ]

  unfoldable pub listed : Option (List KeyRow) × D → Option (List (Key M)) × D
  unfolding decode_all
  listed (none, d) = (none, d)
  listed (some rows, d) = (decode_all rows, d)

  -- List
  unfoldable pub list : String → Bool → D → Option (List (Key M)) × D
  unfolding listed
  list subject include_revoked d = listed (
      if include_revoked
      then q.list_all_keys_by_subject subject d
      else q.list_keys_by_subject subject d)
