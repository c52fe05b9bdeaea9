-- ===== src/Auth/ApiKey/Tests.antt =====
-- A table with room for one key, and the theorems at it.
use Prim.Native.String.{◌++◌}
use gas.Prelude.{
  String, string_eq, ◌==◌, Bool, true, false, not, ◌&&◌, Option, none, some, List, [], ◌∷◌,
  if◌then◌else◌, ℕ, ◌*◌, ◌/◌, ◌≡◌, ◌≢◌, inl, inr, refl, sym, ap, ◌∙◌, arith, pos, subst, ◌||◌,
  nat_eq, length, Bool-cases, beq_refl,
}
use gas.Auth.{Principal, accepted, scheme_api_key}
use gas.Auth.ApiKey.{
  KeyRow, Fetched, row, no_rows, Querier, Codec, Settings, with_ttl, authenticate, generate, revoke,
  revoke_all, generate_from, inserted, apply_options, apply_option, marshal_metadata, find_comma,
  has_comma_in, fetch, fetched, decoded, admitted, updated,
}
use gas.Auth.ApiKey.Keys.{IsTable, without, soft_delete, set_last_used, is_revoked}
use gas.Auth.ApiKey.Dead.{Later}
use gas.Auth.ApiKey.Revoked.{Ends, revoked_rejected}
use gas.Auth.ApiKey.Accepted.{KeyAccess, authenticate-KeyAccess}

abbrev Table : Type 0
Table = Option KeyRow

abbrev row_at : Table → String → Option KeyRow
row_at none id = none
row_at (some r) id = if r.id == id then some r else none

abbrev by_hash : String → Table → Fetched KeyRow
by_hash h none = no_rows
by_hash h (some r) = if r.key_hash == h && not (is_revoked r) then row r else no_rows

abbrev listed_for : String → Bool → Table → List KeyRow
listed_for subject all none = []
listed_for subject all (some r) =
    if r.subject == subject && (all || not (is_revoked r)) then r ∷ [] else []

-- It keeps times to ten.
abbrev tens : ℕ → ℕ
tens t = t / 10 * 10

abbrev in_tens : KeyRow → KeyRow
in_tens r = record r {
  created_at = tens r.created_at;
  expires_at = (elim r.expires_at [ none ↦ none | some t ↦ some (tens t) ]);
}

abbrev table : Querier Table
table = record {
  get_key_by_hash = λ h d. (by_hash h d, d);
  update_last_used = λ id now d. (
    none,
    elim d [
      | none ↦ none
      | some r ↦ if r.id == id then set_last_used (tens now) (some r) else some r
    ],
  );
  insert_key = λ r d. elim d [ none ↦ (none, some (in_tens r)) | some old ↦ (some 1, some old) ];
  soft_delete_key_by_id = λ id now d. (none, soft_delete (λ r. r.id == id) (tens now) d);
  soft_delete_keys_by_subject =
      λ subject now d. (none, soft_delete (λ r. r.subject == subject) (tens now) d);
  hard_delete_key_by_id = λ id d. (none, without (λ r. r.id == id) d);
  hard_delete_keys_by_subject = λ subject d. (none, without (λ r. r.subject == subject) d);
  list_keys_by_subject = λ subject d. (some (listed_for subject false d), d);
  list_all_keys_by_subject = λ subject d. (some (listed_for subject true d), d);
}

row_at-without :
    (p : KeyRow → Bool) (d : Table) (k : String) → row_at (without p d) k ≡ without p (row_at d k)
row_at-without p none k = refl
row_at-without p (some r) k = ground (arith, p r)

row_at-soft_delete :
    (p : KeyRow → Bool) (now : ℕ) (d : Table) (k : String)
    → row_at (soft_delete p now d) k ≡ soft_delete p now (row_at d k)
row_at-soft_delete p now none k = refl
row_at-soft_delete p now (some r) k = ground (arith, p r)

row_at-named : (d : Table) (id : String) (r : KeyRow) → row_at d id ≡ some r → r.id ≡ id
row_at-named none id r h = cc
row_at-named (some s) id r h =
    ground (arith, h, string_eq.eq_iff s.id id, ap {A = KeyRow} (λ x. x.id))

row_at_unique :
    (d : Table) (i j : String) (r s : KeyRow)
    → row_at d i ≡ some r
    → row_at d j ≡ some s
    → r.key_hash ≡ s.key_hash
    → i ≡ j
row_at_unique none i j r s hr hs e = cc
row_at_unique (some x) i j r s hr hs e =
    ground (arith, hr, hs, string_eq.eq_iff x.id i, string_eq.eq_iff x.id j)

row_at-by_hash :
    (h : String) (d : Table) (r : KeyRow)
    → by_hash h d ≡ row r
    → (row_at d r.id ≡ some r) × (r.key_hash ≡ h) × (is_revoked r ≡ false)
row_at-by_hash h none r e = cc
row_at-by_hash h (some s) r e = elim (Bool-cases (s.key_hash == h && not (is_revoked s))) [
  | inr apart ↦ ground (arith, apart, e)
  | inl both ↦
      let is : s ≡ r = row_eq (sym (rw (both) refl) ∙ e) in
      subst (λ x. (row_at (some s) x.id ≡ some x) × (x.key_hash ≡ h) × (is_revoked x ≡ false)) is
        (
          ground (arith, beq_refl s.id),
          (string_eq.eq_iff s.key_hash h).0 (ground (arith, both)),
          ground (arith, both),
        )
]
  where
    row_eq : ◌≡◌ {A = Fetched KeyRow} (row s) (row r) → s ≡ r
    row_eq k = cc

row_at-insert :
    (r : KeyRow) (k : String) (d : Table)
    → (table.insert_key r d).0 ≡ none
    → row_at (table.insert_key r d).1 k ≡ (if r.id == k then some (in_tens r) else row_at d k)
row_at-insert r k none h = refl
row_at-insert r k (some s) h = cc

row_at-insert_err :
    (r : KeyRow) (k : String) (d : Table) (e : ℕ)
    → (table.insert_key r d).0 ≡ some e
    → row_at (table.insert_key r d).1 k ≡ row_at d k
row_at-insert_err r k none e h = cc
row_at-insert_err r k (some s) e h = refl

row_at-used :
    (id : String) (now : ℕ) (k : String) (d : Table)
    → row_at (table.update_last_used id now d).1 k
      ≡ (if id == k then set_last_used (tens now) (row_at d k) else row_at d k)
row_at-used id now k none = ground arith
row_at-used id now k (some s) =
    ground (arith, string_eq.eq_iff s.id id, string_eq.eq_iff s.id k, string_eq.eq_iff id k)

row_at-delete :
    (id k : String) (d : Table)
    → row_at (without (λ r. r.id == id) d) k ≡ (if id == k then none else row_at d k)
row_at-delete id k none = ground arith
row_at-delete id k (some r) =
    ground (arith, string_eq.eq_iff r.id k, string_eq.eq_iff r.id id, string_eq.eq_iff id k)

not_failed : {e : ℕ} → none ≡ some e → {A : Type 0} → A
not_failed h = cc

abbrev laws : IsTable table
laws = record {
  kept = tens;
  kept_row = in_tens;
  kept_hash = λ r. refl;
  at = row_at;
  named = row_at-named;
  unique = row_at_unique;
  get_same = λ h k d. refl;
  get_row = row_at-by_hash;
  used_ok = λ id now k d h. row_at-used id now k d;
  used_err = λ id now k d e h. not_failed h;
  insert_ok = row_at-insert;
  insert_err = row_at-insert_err;
  soft_id_ok = λ id now k d h. row_at-soft_delete (λ r. r.id == id) (tens now) d k;
  soft_id_err = λ id now k d e h. not_failed h;
  soft_subject_ok =
      λ subject now k d h. row_at-soft_delete (λ r. r.subject == subject) (tens now) d k;
  soft_subject_err = λ subject now k d e h. not_failed h;
  hard_id_ok = λ id k d h. row_at-delete id k d;
  hard_id_err = λ id k d e h. not_failed h;
  hard_subject_ok = λ subject k d h. row_at-without (λ r. r.subject == subject) d k;
  hard_subject_err = λ subject k d e h. not_failed h;
}

-- Metadata is a number of scopes.
abbrev codec : Codec ℕ
codec = record {
  empty = 0;
  is_empty = λ m. m == 0;
  marshal = λ m. none;
  unmarshal = λ json. some 0;
  with_scopes = λ scopes m. length scopes;
}

abbrev hash : String → String
hash key = "h" ++ key

abbrev cfg : Settings
cfg = record { prefix = "gas_" }

abbrev with_key : Table
with_key =
    (generate codec hash table cfg (some "0123456789") "1" "ann" "laptop" ("read" ∷ [])
      (with_ttl (pos 10) 5 ∷ []) 5 none).1

abbrev stored : KeyRow
stored = record {
  id = "1";
  subject = "ann";
  name = "laptop";
  key_hash = "hgas_0123456789";
  key_prefix = "gas_01234567";
  scopes = "read" ∷ [];
  metadata = "{}";
  created_at = 0;
  last_used = none;
  expires_at = some 10;
  deleted_at = none;
}

key_stored : with_key ≡ some stored
unfolding generate generate_from inserted apply_options apply_option marshal_metadata find_comma
    has_comma_in
key_stored = refl

abbrev one : Table
one = some stored

abbrev principal : Principal ℕ
principal = record { subject = "ann"; scheme = scheme_api_key; credential_id = "1"; metadata = 1 }

abbrev used : Table
used = (authenticate codec hash table "gas_0123456789" 7 8 one).1

key_accepted : authenticate codec hash table "gas_0123456789" 7 8 one ≡ (accepted principal, used)
unfolding authenticate fetch fetched decoded admitted updated
key_accepted = refl

authenticate-KeyAccess_example :
    KeyAccess codec hash table laws "gas_0123456789" 7 8 one principal used
authenticate-KeyAccess_example =
    authenticate-KeyAccess codec hash table laws "gas_0123456789" 7 8 one principal used
      key_accepted

abbrev after_revoke : Table
after_revoke = (revoke_all codec hash table "ann" 8 one).1

revoke_succeeds : (revoke_all codec hash table "ann" 8 one).0 ≡ none
unfolding revoke_all
revoke_succeeds = refl

revoked_rejected_example :
    (authenticate codec hash table "gas_0123456789" 9 9
      (revoke codec hash table principal 9 after_revoke).1).0
    ≢ accepted principal
revoked_rejected_example =
    revoked_rejected codec hash table laws "gas_0123456789" "1" stored one after_revoke
      (revoke codec hash table principal 9 after_revoke).1 9 9 principal refl refl
      (Ends.all_revoked 8 revoke_succeeds)
      (Later.by_revoke principal 9 after_revoke Later.none_called)
