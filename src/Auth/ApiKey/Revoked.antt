-- ===== src/Auth/ApiKey/Revoked.antt =====
-- A key that is revoked or deleted authenticates nobody.
use gas.Prelude.{
  String, string_eq, ◌==◌, Bool, true, false, Option, none, some, if◌then◌else◌, ℕ, ◌≡◌, ◌≢◌, inl,
  inr, refl, sym, ap, ◌∙◌, subst, arith, Bool-cases, beq_refl,
}
use gas.Auth.{Principal, accepted, scheme_api_key}
use gas.Auth.ApiKey.{
  KeyRow, Querier, Codec, authenticate, revoke, revoke_all, revoke_all_by_scheme, delete,
  delete_all,
}
use gas.Auth.ApiKey.Keys.{IsTable, without, soft_delete, is_revoked}
use gas.Auth.ApiKey.Dead.{
  IsDeadRow, IsDeadRow-soft_delete, IsDeadRow-without, IsDeadRow-if, IsDead, Later, IsDead-Later,
  rejected-IsDead,
}

module _ {M D : Type 0} (codec : Codec M) (hash : String → String) (q : Querier D)
    (laws : IsTable q) where
  -- The row of the key is the only one with its hash.
  IsDeadRow-other :
      (h id k : String) (d : D) (r : KeyRow)
      → laws.at d id ≡ some r
      → r.key_hash ≡ h
      → (id == k) ≡ false
      → IsDeadRow h (laws.at d k)
  IsDeadRow-other h id k d r there same apart = known (laws.at d k) refl
    where
      known : (o : Option KeyRow) → laws.at d k ≡ o → IsDeadRow h o
      known none e = tt
      known (some s) e = λ too. ground (
        arith,
        apart,
        (string_eq.eq_iff id k).1 (laws.unique d id k r s there e (same ∙ sym too)),
      )

  -- One statement that marks or removes the row of the key
  IsDead-ended :
      (h id : String) (d : D) (r : KeyRow) (e : D) (f : String → Option KeyRow → Option KeyRow)
      → laws.at d id ≡ some r
      → r.key_hash ≡ h
      → ((k : String) → laws.at e k ≡ f k (laws.at d k))
      → ((k : String) (o : Option KeyRow) → IsDeadRow h o → IsDeadRow h (f k o))
      → IsDeadRow h (f id (some r))
      → IsDead codec hash q laws h e
  IsDead-ended h id d r e f there same done keeps ends k = elim (Bool-cases (id == k)) [
    | inl here ↦
        subst (λ j. IsDeadRow h (laws.at e j)) ((string_eq.eq_iff id k).0 here)
          (subst (IsDeadRow h) (sym (done id ∙ ap (f id) there)) ends)
    | inr apart ↦
        subst (IsDeadRow h) (sym (done k))
          (keeps k (laws.at d k) (IsDeadRow-other h id k d r there same apart))
  ]

  marked :
      (h : String) (p : KeyRow → Bool) (now : ℕ) (r : KeyRow)
      → p r ≡ true
      → IsDeadRow h (soft_delete p now (some r))
  marked h p now r hit = elim (Bool-cases (is_revoked r)) [
    | inl already ↦ rw (hit, already) (λ same. already)
    | inr active ↦ rw (hit, active) (λ same. refl)
  ]

  -- How the key `r` ends: Revoke or Delete of a principal that it identified, or RevokeAll,
  -- RevokeAllByScheme or DeleteAll of its subject, each without an error of the database.
  pub data Ends (id : String) (r : KeyRow) (d : D) : D → Type 0 where
    revoked :
        (p : Principal M) (now : ℕ)
        → p.credential_id ≡ id
        → (revoke codec hash q p now d).0 ≡ none
        → Ends id r d (revoke codec hash q p now d).1
    all_revoked :
        (now : ℕ)
        → (revoke_all codec hash q r.subject now d).0 ≡ none
        → Ends id r d (revoke_all codec hash q r.subject now d).1
    scheme_revoked :
        (now : ℕ)
        → (revoke_all_by_scheme codec hash q r.subject scheme_api_key now d).0 ≡ none
        → Ends id r d (revoke_all_by_scheme codec hash q r.subject scheme_api_key now d).1
    deleted :
        (p : Principal M)
        → p.credential_id ≡ id
        → (delete codec hash q p d).0 ≡ none
        → Ends id r d (delete codec hash q p d).1
    all_deleted :
        (delete_all codec hash q r.subject d).0 ≡ none
        → Ends id r d (delete_all codec hash q r.subject d).1

  IsDead-Ends :
      (h id : String) (r : KeyRow) (d e : D)
      → laws.at d id ≡ some r
      → r.key_hash ≡ h
      → Ends id r d e
      → IsDead codec hash q laws h e
  unfolding revoke revoke_all revoke_all_by_scheme delete delete_all
  IsDead-Ends h id r d _ there same (revoked p now is ok) =
      IsDead-ended h id d r _ (λ k o. soft_delete (λ s. s.id == p.credential_id) (laws.kept now) o)
        there same (λ k. laws.soft_id_ok p.credential_id now k d ok)
        (λ k o x. IsDeadRow-soft_delete h (λ s. s.id == p.credential_id) (laws.kept now) o x)
        (marked h (λ s. s.id == p.credential_id) (laws.kept now) r
          ((string_eq.eq_iff r.id p.credential_id).1 (laws.named d id r there ∙ sym is)))
  IsDead-Ends h id r d _ there same (all_revoked now ok) =
      IsDead-ended h id d r _ (λ k o. soft_delete (λ s. s.subject == r.subject) (laws.kept now) o)
        there same (λ k. laws.soft_subject_ok r.subject now k d ok)
        (λ k o x. IsDeadRow-soft_delete h (λ s. s.subject == r.subject) (laws.kept now) o x)
        (marked h (λ s. s.subject == r.subject) (laws.kept now) r (beq_refl r.subject))
  IsDead-Ends h id r d _ there same (scheme_revoked now ok) =
      IsDead-ended h id d r _ (λ k o. soft_delete (λ s. s.subject == r.subject) (laws.kept now) o)
        there same (λ k. laws.soft_subject_ok r.subject now k d ok)
        (λ k o x. IsDeadRow-soft_delete h (λ s. s.subject == r.subject) (laws.kept now) o x)
        (marked h (λ s. s.subject == r.subject) (laws.kept now) r (beq_refl r.subject))
  IsDead-Ends h id r d _ there same (deleted p is ok) =
      IsDead-ended h id d r _ (λ k o. if p.credential_id == k then none else o) there same
        (λ k. laws.hard_id_ok p.credential_id k d ok)
        (λ k o x. IsDeadRow-if h (p.credential_id == k) none o tt x)
        (rw ((string_eq.eq_iff p.credential_id id).1 is) tt)
  IsDead-Ends h id r d _ there same (all_deleted ok) =
      IsDead-ended h id d r _ (λ k o. without (λ s. s.subject == r.subject) o) there same
        (λ k. laws.hard_subject_ok r.subject k d ok)
        (λ k o x. IsDeadRow-without h (λ s. s.subject == r.subject) o x)
        (rw (beq_refl r.subject) tt)

  -- Once the row of a key is revoked or deleted, by Revoke, RevokeAll, RevokeAllByScheme, Delete or
  -- DeleteAll, the key authenticates nobody at any later time, whatever calls of the service come in
  -- between, as long as no Generate draws a key of the same hash.
  pub revoked_rejected :
      (key id : String) (r : KeyRow) (d e f : D) (now used : ℕ) (p : Principal M)
      → laws.at d id ≡ some r
      → r.key_hash ≡ hash key
      → Ends id r d e
      → Later codec hash q laws (hash key) e f
      → (authenticate codec hash q key now used f).0 ≢ accepted p
  revoked_rejected key id r d e f now used p there same ends later =
      rejected-IsDead codec hash q laws key now used f p (
        IsDead-Later codec hash q laws (hash key) e f
          (IsDead-Ends (hash key) id r d e there same ends) later)
