-- ===== src/Auth/Tests.antt =====
-- A chain of two authenticators behind the middleware.
use gas.Prelude.{ℕ, String, string_eq, none, some, List, [], ◌∷◌, ◌≡◌, refl, ◌+◌}
use gas.Auth.{
  no_principal, identified, AuthError, credentials_expired, Authenticator, Request, Handler,
  middleware, chain, require_scheme, admit, tried, authenticate, checked_identity,
  principal_from_context,
}
use gas.Auth.Guarded.{Served, middleware-Served}

-- The state counts the calls.
abbrev expired : Authenticator ℕ String ℕ
expired r s = ((no_principal, some credentials_expired), s + 1)

abbrev by_name : Authenticator ℕ String ℕ
by_name r s = (
  (identified (record { subject = r; scheme = "apikey"; credential_id = "1"; metadata = 0 }), none),
  s + 1,
)

abbrev members : List (Authenticator ℕ String ℕ)
members = expired ∷ by_name ∷ []

abbrev next : Handler ℕ String ℕ
next r s = s + 100

abbrev write_forbidden : Handler ℕ String ℕ
write_forbidden r s = s + 403

abbrev on_error : AuthError → Handler ℕ String ℕ
on_error e r s = s + 401

abbrev request : Request ℕ String
request = record { inner = "ann"; principal = none }

served :
    middleware (chain members) on_error (require_scheme "apikey" write_forbidden next) request 0
    ≡ 102
unfolding middleware chain require_scheme admit tried authenticate checked_identity
    principal_from_context
served = refl

middleware-Served_example :
    Served members "session" on_error write_forbidden next request 0 (
      middleware (chain members) on_error (require_scheme "session" write_forbidden next) request 0)
middleware-Served_example =
    middleware-Served members "session" on_error write_forbidden next request 0
