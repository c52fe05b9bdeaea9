-- ===== src/Auth/Guarded.antt =====
-- A handler behind Middleware, a Chain and RequireScheme.
use gas.Prelude.{
  String, string_eq, ◌==◌, false, Option, none, some, List, [], ◌∷◌, ◌≡◌, inl, inr, refl, sym, ◌∙◌,
  Bool-cases,
}
use gas.Auth.{
  Principal, Identity, no_principal, typed_nil, identified, AuthError, Verdict, accepted, rejected,
  Authenticator, checked_identity, authenticate, tried, chain, Request, Handler, admit, middleware,
  principal_from_context, require_scheme,
}

checked_identity-accepted :
    {M S : Type 0} (c : (Identity M × Option AuthError) × S) (p : Principal M) (t : S)
    → checked_identity c ≡ (accepted p, t)
    → c ≡ ((identified p, none), t)
unfolding checked_identity
checked_identity-accepted ((q, some e), u) p t h = cc
checked_identity-accepted ((no_principal, none), u) p t h = cc
checked_identity-accepted ((typed_nil, none), u) p t h = cc
checked_identity-accepted ((identified q, none), u) p t h = cc

module _ {M R S : Type 0} where
  -- Some member, run in the state that the ones in front of it leave behind, answers the principal
  -- and no error.
  pub data Identifies (r : R) (p : Principal M) (t : S)
      : List (Authenticator M R S) → S → Type 0 where
    here :
        (a : Authenticator M R S) (members : List (Authenticator M R S)) (s : S)
        → a r s ≡ ((identified p, none), t)
        → Identifies r p t (a ∷ members) s
    later :
        (a : Authenticator M R S) (members : List (Authenticator M R S)) (s u : S) (e : AuthError)
        → authenticate a r s ≡ (rejected e, u)
        → Identifies r p t members u
        → Identifies r p t (a ∷ members) s

  tried-Identifies :
      (a : Authenticator M R S) (members : List (Authenticator M R S)) (r : R) (s : S)
      (c : Verdict M × S) (p : Principal M) (t : S)
      → c ≡ authenticate a r s
      → tried members r c ≡ (accepted p, t)
      → Identifies r p t (a ∷ members) s
  unfolding tried authenticate
  tried-Identifies a members r s (accepted q, u) p t e h =
      here a members s (checked_identity-accepted (a r s) p t (sym e ∙ h))
  tried-Identifies a [] r s (rejected x, u) p t e h = cc
  tried-Identifies a (b ∷ members) r s (rejected x, u) p t e h =
      later a (b ∷ members) s u x (sym e)
        (tried-Identifies b members r u (authenticate b r u) p t refl h)

  chain-Identifies :
      (members : List (Authenticator M R S)) (r : R) (s : S) (p : Principal M) (t : S)
      → chain members r s ≡ (accepted p, t)
      → Identifies r p t members s
  unfolding chain
  chain-Identifies [] r s p t h = cc
  chain-Identifies (a ∷ members) r s p t h =
      tried-Identifies a members r s (authenticate a r s) p t refl h

  -- The three ends of a request
  pub data Served (members : List (Authenticator M R S)) (scheme : String)
      (on_error : AuthError → Handler M R S) (write_forbidden next : Handler M R S)
      (r : Request M R) (s : S) : S → Type 0 where
    reached :
        (p : Principal M) (t : S)
        → Identifies r.inner p t members s
        → p.scheme ≡ scheme
        → Served members scheme on_error write_forbidden next r s
            (next (record r { principal = some (identified p) }) t)
    refused_scheme :
        (p : Principal M) (t : S)
        → Identifies r.inner p t members s
        → (p.scheme == scheme) ≡ false
        → Served members scheme on_error write_forbidden next r s
            (write_forbidden (record r { principal = some (identified p) }) t)
    refused :
        (e : AuthError) (t : S)
        → chain members r.inner s ≡ (rejected e, t)
        → Served members scheme on_error write_forbidden next r s (on_error e r t)

  -- A handler behind Middleware with a Chain, and behind RequireScheme, is reached only with a
  -- principal of that scheme which a member of the chain identified without an error. In all other
  -- cases the error handler gets the chain's error, or the answer is Forbidden.
  pub middleware-Served :
      (members : List (Authenticator M R S)) (scheme : String)
      (on_error : AuthError → Handler M R S) (write_forbidden next : Handler M R S)
      (r : Request M R) (s : S)
      → Served members scheme on_error write_forbidden next r s
          (middleware (chain members) on_error (require_scheme scheme write_forbidden next) r s)
  unfolding middleware admit require_scheme principal_from_context
  middleware-Served members scheme on_error write_forbidden next r s =
      answered (chain members r.inner s) refl
    where
      answered :
          (c : Verdict M × S)
          → c ≡ chain members r.inner s
          → Served members scheme on_error write_forbidden next r s
              (admit (require_scheme scheme write_forbidden next) on_error r c)
      answered (rejected e, t) h = refused e t (sym h)
      answered (accepted p, t) h = elim (Bool-cases (p.scheme == scheme)) [
        | inl same ↦ rw (same) (
            reached p t (chain-Identifies members r.inner s p t (sym h))
              ((string_eq.eq_iff p.scheme scheme).0 same))
        | inr other ↦
            rw (other) (refused_scheme p t (chain-Identifies members r.inner s p t (sym h)) other)
      ]
