-- ===== src/Auth/ApiKey/Dead.antt =====
-- A hash without an active row stays so, and authenticates nobody.
use Prim.Native.String.{◌++◌, len, slice}
use gas.Prelude.{
  ◌+◌, String, string_eq, ◌==◌, Bool, true, false, not, ◌&&◌, List, Option, none, some,
  if◌then◌else◌, ℕ, ltb, ◌≡◌, ◌≢◌, inl, inr, refl, sym, ◌∙◌, subst, arith, Bool-cases, Option-cases,
}
use gas.Auth.{Principal, accepted, scheme_api_key}
use gas.Auth.ApiKey.{
  is_expired, Key, KeyRow, Fetched, row, no_rows, query_error, Querier, Codec, Settings,
  GenerateOption, GenerateOptions, generate, generate_from, inserted, marshal_metadata, find_comma,
  key_row, Found, found, missing, fetched, fetch, updated, admitted, authenticate, revoke,
  revoke_all, revoke_all_by_scheme, delete, delete_all,
}
use gas.Auth.ApiKey.Keys.{IsTable, without, soft_delete, set_last_used, is_revoked}

-- No row has the hash, but for a revoked one.
abbrev pub IsDeadRow : String → Option KeyRow → Type 0
IsDeadRow h none = Unit
IsDeadRow h (some r) = r.key_hash ≡ h → is_revoked r ≡ true

pub IsDeadRow-soft_delete :
    (h : String) (p : KeyRow → Bool) (now : ℕ) (o : Option KeyRow)
    → IsDeadRow h o
    → IsDeadRow h (soft_delete p now o)
IsDeadRow-soft_delete h p now none dead = tt
IsDeadRow-soft_delete h p now (some r) dead = elim (Bool-cases (p r && not (is_revoked r))) [
  | inl marked ↦ rw (marked) (λ same. refl)
  | inr left ↦ rw (left) dead
]

pub IsDeadRow-without :
    (h : String) (p : KeyRow → Bool) (o : Option KeyRow) → IsDeadRow h o → IsDeadRow h (without p o)
IsDeadRow-without h p none dead = tt
IsDeadRow-without h p (some r) dead = elim (Bool-cases (p r)) [
  | inl gone ↦ rw (gone) tt
  | inr kept ↦ rw (kept) dead
]

pub IsDeadRow-set_last_used :
    (h : String) (now : ℕ) (o : Option KeyRow) → IsDeadRow h o → IsDeadRow h (set_last_used now o)
IsDeadRow-set_last_used h now none dead = tt
IsDeadRow-set_last_used h now (some r) dead = dead

pub IsDeadRow-if :
    (h : String) (b : Bool) (x y : Option KeyRow)
    → IsDeadRow h x
    → IsDeadRow h y
    → IsDeadRow h (if b then x else y)
IsDeadRow-if h true x y dx dy = dx
IsDeadRow-if h false x y dx dy = dy

module _ {M D : Type 0} (codec : Codec M) (hash : String → String) (q : Querier D)
    (laws : IsTable q) where
  abbrev pub IsDead : String → D → Type 0
  IsDead h d = (k : String) → IsDeadRow h (laws.at d k)

  -- A statement, on both ends, by what it makes of a row
  IsDead-statement :
      (h : String) (d : D) (c : Option ℕ × D) (f : String → Option KeyRow → Option KeyRow)
      → IsDead h d
      → ((k : String) (o : Option KeyRow) → IsDeadRow h o → IsDeadRow h (f k o))
      → ((k : String) → c.0 ≡ none → laws.at c.1 k ≡ f k (laws.at d k))
      → ((k : String) (e : ℕ) → c.0 ≡ some e → laws.at c.1 k ≡ laws.at d k)
      → IsDead h c.1
  IsDead-statement h d c f dead keeps done undone k = elim (Option-cases c.0) [
    | inl ok ↦ subst (IsDeadRow h) (sym (done k ok)) (keeps k (laws.at d k) (dead k))
    | inr (e, bad) ↦ subst (IsDeadRow h) (sym (undone k e bad)) (dead k)
  ]

  -- Any calls of the service, except for a Generate that draws a key with the hash `h`
  pub data Later (h : String) (d : D) : D → Type 0 where
    none_called : Later h d d
    by_generate :
        (cfg : Settings) (raw id subject name : String) (scopes : List String)
        (opts : List (GenerateOption M)) (now : ℕ) (e : D)
        → hash (cfg.prefix ++ raw) ≢ h
        → Later h d e
        → Later h d (generate codec hash q cfg (some raw) id subject name scopes opts now e).1
    by_authenticate :
        (key : String) (now used : ℕ) (e : D)
        → Later h d e
        → Later h d (authenticate codec hash q key now used e).1
    by_revoke :
        (p : Principal M) (now : ℕ) (e : D)
        → Later h d e
        → Later h d (revoke codec hash q p now e).1
    by_revoke_all :
        (subject : String) (now : ℕ) (e : D)
        → Later h d e
        → Later h d (revoke_all codec hash q subject now e).1
    by_scheme :
        (subject scheme : String) (now : ℕ) (e : D)
        → Later h d e
        → Later h d (revoke_all_by_scheme codec hash q subject scheme now e).1
    by_delete : (p : Principal M) (e : D) → Later h d e → Later h d (delete codec hash q p e).1
    by_delete_all :
        (subject : String) (e : D) → Later h d e → Later h d (delete_all codec hash q subject e).1

  state-updated : (k : Key M) (c : Option ℕ × D) → (updated codec hash q k c).1 ≡ c.1
  unfolding updated
  state-updated k (none, d) = refl
  state-updated k (some e, d) = refl

  IsDead-admitted :
      (h : String) (now used : ℕ) (r : Found M) (d : D)
      → IsDead h d
      → IsDead h (admitted codec hash q now used (r, d)).1
  unfolding admitted
  IsDead-admitted h now used (missing e) d dead = dead
  IsDead-admitted h now used (found k) d dead = elim (Bool-cases (is_expired k.expires_at now)) [
    | inl old ↦ simp (admitted, old) dead
    | inr live ↦
        simp (admitted, live, state-updated k (q.update_last_used k.id used d))
          (IsDead-statement h d (q.update_last_used k.id used d)
            (λ j o. if k.id == j then set_last_used (laws.kept used) o else o) dead
            (λ j o x.
              IsDeadRow-if h (k.id == j) (set_last_used (laws.kept used) o) o
                (IsDeadRow-set_last_used h (laws.kept used) o x) x)
            (λ j ok. laws.used_ok k.id used j d ok) (λ j e bad. laws.used_err k.id used j d e bad))
  ]

  IsDead-authenticate :
      (h key : String) (now used : ℕ) (d : D)
      → IsDead h d
      → IsDead h (authenticate codec hash q key now used d).1
  unfolding authenticate fetch
  IsDead-authenticate h key now used d dead = elim (Bool-cases (key == "")) [
    | inl blank ↦ simp (authenticate, blank) dead
    | inr given ↦
        simp (authenticate, given)
          (IsDead-admitted h now used (fetch codec hash q (hash key) d).0
            (fetch codec hash q (hash key) d).1
            (λ k. subst (IsDeadRow h) (sym (laws.get_same (hash key) k d)) (dead k)))
  ]

  state-inserted :
      (full : String) (k : Key M) (c : Option ℕ × D) → (inserted codec hash q full k c).1 ≡ c.1
  unfolding inserted
  state-inserted full k (none, d) = refl
  state-inserted full k (some e, d) = refl

  IsDead-insert :
      (h : String) (r : KeyRow) (d : D)
      → r.key_hash ≢ h
      → IsDead h d
      → IsDead h (q.insert_key r d).1
  IsDead-insert h r d other dead =
      IsDead-statement h d (q.insert_key r d)
        (λ j o. if r.id == j then some (laws.kept_row r) else o) dead
        (λ j o x.
          IsDeadRow-if h (r.id == j) (some (laws.kept_row r)) o
            (λ same. absurd (other (sym (laws.kept_hash r) ∙ same))) x)
        (λ j ok. laws.insert_ok r j d ok) (λ j e bad. laws.insert_err r j d e bad)

  IsDead-generate_from :
      (cfg : Settings) (h full id subject name : String) (scopes : List String)
      (o : GenerateOptions M) (now : ℕ) (d : D)
      → hash full ≢ h
      → IsDead h d
      → IsDead h (generate_from codec hash q cfg full id subject name scopes o now d).1
  unfolding generate_from
  IsDead-generate_from cfg h full id subject name scopes o now d other dead =
      elim (Bool-cases (ltb (len full) (len cfg.prefix + 8))) [
        | inl short ↦ simp (generate_from, short) dead
        | inr long ↦ elim (Option-cases (find_comma scopes)) [
          | inr (scope, bad) ↦ simp (generate_from, long, bad) dead
          | inl good ↦ elim (Option-cases (marshal_metadata codec hash q o.metadata)) [
            | inl fails ↦ simp (generate_from, long, good, fails) dead
            | inr (json, works) ↦
                let k : Key M = record {
                  id = id;
                  subject = subject;
                  name = name;
                  key_hash = hash full;
                  key_prefix = slice full 0 (len cfg.prefix + 8);
                  scopes = scopes;
                  metadata = o.metadata;
                  created_at = now;
                  last_used = none;
                  expires_at = o.expires_at;
                  deleted_at = none;
                } in
                simp
                  (
                    generate_from,
                    long,
                    good,
                    works,
                    state-inserted full k (q.insert_key (key_row codec hash q k json) d),
                  )
                  (IsDead-insert h (key_row codec hash q k json) d other dead)
          ]
        ]
      ]

  IsDead-revoke_all :
      (h subject : String) (now : ℕ) (d : D)
      → IsDead h d
      → IsDead h (revoke_all codec hash q subject now d).1
  unfolding revoke_all
  IsDead-revoke_all h subject now d dead =
      IsDead-statement h d (q.soft_delete_keys_by_subject subject now d)
        (λ j o. soft_delete (λ r. r.subject == subject) (laws.kept now) o) dead
        (λ j o x. IsDeadRow-soft_delete h (λ r. r.subject == subject) (laws.kept now) o x)
        (λ j ok. laws.soft_subject_ok subject now j d ok)
        (λ j e bad. laws.soft_subject_err subject now j d e bad)

  pub IsDead-Later : (h : String) (d e : D) → IsDead h d → Later h d e → IsDead h e
  unfolding generate revoke revoke_all_by_scheme delete delete_all
  IsDead-Later h d _ dead none_called = dead
  IsDead-Later h d _ dead (by_generate cfg raw id subject name scopes opts now e other before) =
      IsDead-generate_from cfg h (cfg.prefix ++ raw) id subject name scopes _ now e other
        (IsDead-Later h d e dead before)
  IsDead-Later h d _ dead (by_authenticate key now used e before) =
      IsDead-authenticate h key now used e (IsDead-Later h d e dead before)
  IsDead-Later h d _ dead (by_revoke p now e before) =
      IsDead-statement h e (q.soft_delete_key_by_id p.credential_id now e)
        (λ j o. soft_delete (λ r. r.id == p.credential_id) (laws.kept now) o)
        (IsDead-Later h d e dead before)
        (λ j o x. IsDeadRow-soft_delete h (λ r. r.id == p.credential_id) (laws.kept now) o x)
        (λ j ok. laws.soft_id_ok p.credential_id now j e ok)
        (λ j x bad. laws.soft_id_err p.credential_id now j e x bad)
  IsDead-Later h d _ dead (by_revoke_all subject now e before) =
      IsDead-revoke_all h subject now e (IsDead-Later h d e dead before)
  IsDead-Later h d _ dead (by_scheme subject scheme now e before) =
      elim (Bool-cases (scheme == scheme_api_key)) [
        | inl same ↦
            simp (revoke_all_by_scheme, same)
              (IsDead-revoke_all h subject now e (IsDead-Later h d e dead before))
        | inr other ↦ simp (revoke_all_by_scheme, other) (IsDead-Later h d e dead before)
      ]
  IsDead-Later h d _ dead (by_delete p e before) =
      IsDead-statement h e (q.hard_delete_key_by_id p.credential_id e)
        (λ j o. if p.credential_id == j then none else o) (IsDead-Later h d e dead before)
        (λ j o x. IsDeadRow-if h (p.credential_id == j) none o tt x)
        (λ j ok. laws.hard_id_ok p.credential_id j e ok)
        (λ j x bad. laws.hard_id_err p.credential_id j e x bad)
  IsDead-Later h d _ dead (by_delete_all subject e before) =
      IsDead-statement h e (q.hard_delete_keys_by_subject subject e)
        (λ j o. without (λ r. r.subject == subject) o) (IsDead-Later h d e dead before)
        (λ j o x. IsDeadRow-without h (λ r. r.subject == subject) o x)
        (λ j ok. laws.hard_subject_ok subject j e ok)
        (λ j x bad. laws.hard_subject_err subject j e x bad)

  pub rejected-IsDead :
      (key : String) (now used : ℕ) (d : D) (p : Principal M)
      → IsDead (hash key) d
      → (authenticate codec hash q key now used d).0 ≢ accepted p
  unfolding authenticate fetch admitted fetched
  rejected-IsDead key now used d p dead h = elim (Bool-cases (key == "")) [
    | inl blank ↦ ground (arith, blank, h)
    | inr given ↦ answered (q.get_key_by_hash (hash key) d).0 refl (ground (arith, given, h))
  ]
    where
      answered :
          (f : Fetched KeyRow)
          → f ≡ (q.get_key_by_hash (hash key) d).0
          → (admitted codec hash q now used
              (fetched codec hash q f, (q.get_key_by_hash (hash key) d).1)).0
            ≢ accepted p
      answered (row r) e k =
          let (there, same, active) = laws.get_row (hash key) d r (sym e) in
          ground (arith, subst (IsDeadRow (hash key)) there (dead r.id) same, active)
      answered no_rows e k = cc
      answered (query_error x) e k = cc
