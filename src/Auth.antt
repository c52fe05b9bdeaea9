-- ===== src/Auth.antt =====
-- auth/auth.go, auth/middleware.go and principal.go: principals, the chain of authenticators, and the
-- middleware that lets a request through. An authenticator is any code over a state `S`.
pub mod Guarded
pub mod Session
pub mod ApiKey
pub mod Tests
use gas.Prelude.{
  String, string_eq, ◌==◌, Bool, true, false, not, Option, none, some, List, [], ◌∷◌, if◌then◌else◌,
  ℕ,
}

-- BasePrincipal, with metadata in `M`
pub record Principal (M : Type 0) : Type 0 where
  pub subject : String
  pub scheme : String
  pub credential_id : String
  pub metadata : M

-- A value of the interface gas.Principal: nil, a nil pointer of some type, or a principal.
pub data Identity (M : Type 0) : Type 0 where
  no_principal typed_nil : Identity M
  identified : Principal M → Identity M

abbrev pub scheme_session : String
scheme_session = "session"

abbrev pub scheme_api_key : String
scheme_api_key = "apikey"

-- The sentinel errors, and any other
pub data AuthError : Type 0 where
  unauthenticated forbidden credentials_expired credential_revoked : AuthError
  failed : ℕ → AuthError

pub data Verdict (M : Type 0) : Type 0 where
  accepted : Principal M → Verdict M
  rejected : AuthError → Verdict M

abbrev pub Authenticator : Type 0 → Type 0 → Type 0 → Type 0
Authenticator M R S = R → S → (Identity M × Option AuthError) × S

unfoldable pub checked_identity :
    {M S : Type 0} → (Identity M × Option AuthError) × S → Verdict M × S
checked_identity ((p, some e), t) = (rejected e, t)
checked_identity ((no_principal, none), t) = (rejected unauthenticated, t)
checked_identity ((typed_nil, none), t) = (rejected unauthenticated, t)
checked_identity ((identified p, none), t) = (accepted p, t)

-- PrincipalFromContext
unfoldable pub principal_from_context : {M : Type 0} → Option (Identity M) → Option (Principal M)
principal_from_context none = none
principal_from_context (some no_principal) = none
principal_from_context (some typed_nil) = none
principal_from_context (some (identified p)) = some p

-- A request with what WithPrincipal put into its context
pub record Request (M R : Type 0) : Type 0 where
  pub inner : R
  pub principal : Option (Identity M)

abbrev pub Handler : Type 0 → Type 0 → Type 0 → Type 0
Handler M R S = Request M R → S → S

module _ {M R S : Type 0} where
  -- authenticate
  unfoldable pub authenticate : Authenticator M R S → R → S → Verdict M × S
  unfolding checked_identity
  authenticate a r s = checked_identity (a r s)

  -- The loop of Chain.Authenticate behind a member's answer
  unfoldable pub tried : List (Authenticator M R S) → R → Verdict M × S → Verdict M × S
  unfolding authenticate
  tried members r (accepted p, t) = (accepted p, t)
  tried [] r (rejected e, t) = (rejected e, t)
  tried (a ∷ members) r (rejected e, t) = tried members r (authenticate a r t)

  unfoldable pub chain : List (Authenticator M R S) → R → S → Verdict M × S
  unfolding tried
  chain [] r s = (rejected unauthenticated, s)
  chain (a ∷ members) r s = tried members r (authenticate a r s)

  unfoldable pub admit :
      Handler M R S → (AuthError → Handler M R S) → Request M R → Verdict M × S → S
  admit next on_error r (accepted p, t) = next (record r { principal = some (identified p) }) t
  admit next on_error r (rejected e, t) = on_error e r t

  -- Middleware, whose provider answers as `provide` does. A nil provider panics at startup.
  unfoldable pub middleware :
      (R → S → Verdict M × S) → (AuthError → Handler M R S) → Handler M R S → Handler M R S
  unfolding admit
  middleware provide on_error next r s = admit next on_error r (provide r.inner s)

  -- RequireScheme
  unfoldable pub require_scheme : String → Handler M R S → Handler M R S → Handler M R S
  unfolding principal_from_context
  require_scheme scheme write_forbidden next r s = elim (principal_from_context r.principal) [
    | none ↦ write_forbidden r s
    | some p ↦ if p.scheme == scheme then next r s else write_forbidden r s
  ]
