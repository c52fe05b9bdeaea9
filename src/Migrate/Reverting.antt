-- ===== src/Migrate/Reverting.antt =====
-- The rows that Down takes away, and the SQL that it runs.
use mathlib.Core.List.{reverse}
use gas.Prelude.{
  String, string_eq, string_order, ◌==◌, true, false, Option, none, some, List, [], ◌∷◌, ◌++◌,
  contains, All, Distinct, ◌≡◌, ◌≢◌, ◌⊎◌, append-nil, inl, inr, refl, sym, ap, ◌∙◌, subst, arith,
  Option-cases, beq_refl, ℤ, take, pos_part,
}
use gas.Migrate.{Migration, MigrateError, not_registered, commit_failed, ok, registered_migrations}
use gas.Migrate.Run.{
  Row, Database, Service, versions, chain, apply_down, revert_all, revert_registered, down,
}
use gas.Migrate.Registry.{find}
use gas.Migrate.Tracking.{Tracks}
use gas.Migrate.Apply.{OthersKept}
use gas.Migrate.Start.{reads, Started, Started-checked}
use gas.Migrate.Down.{Gone, Gone-kept, Undone, apply_down-Undone}
use gas.Migrate.InForce.{ran_on}
use gas.Migrate.Rows.{
  Distinct-reverse_aux, Distinct-take, find-version, find-All, downs, downs-found,
}

module _ {S : Type 0} (db : Database S) (laws : Tracks db) (registered : List Migration) where
  abbrev pub AllGone : List Row → S → Type 0
  AllGone rows t = All (λ r. laws.row t r.version ≡ none) rows

  -- In force is the SQL of the Downs in front, and, where it was its commit that failed, maybe that of
  -- `at`.
  abbrev pub RanDownTo : List Row → Row → S → MigrateError → S → Type 0
  RanDownTo front at s e t =
      (laws.ran t ≡ laws.ran s ++ downs registered front)
      ⊎ (m : Migration) × (find at.version registered ≡ some m)
        × (e ≡ commit_failed m.version)
        × (laws.ran t ≡ laws.ran s ++ (downs registered front ++ m.down ∷ []))

  RanDownTo-next :
      (r : Row) (m : Migration) (front : List Row) (at : Row) (s u t : S) (e : MigrateError)
      → find r.version registered ≡ some m
      → laws.ran u ≡ laws.ran s ++ m.down ∷ []
      → RanDownTo front at u e t
      → RanDownTo (r ∷ front) at s e t
  RanDownTo-next r m front at s u t e found first (inl ran) = inl (
      ran_on db laws m.down (downs registered front) s u t first ran
      ∙ ap (λ l. laws.ran s ++ l) (sym (downs-found registered r front m found)))
  RanDownTo-next r m front at s u t e found first (inr (n, there, is, ran)) = inr (
    n,
    there,
    is,
    ran_on db laws m.down (downs registered front ++ n.down ∷ []) s u t first ran
        ∙ ap (λ l. laws.ran s ++ (l ++ n.down ∷ [])) (sym (downs-found registered r front m found)),
  )

  -- Where the loop of Down stops at an error: those in front are reverted, those behind as they were.
  pub record StoppedDown (rows : List Row) (s t : S) (e : MigrateError) : Type 0 where
    pub front : List Row
    pub at : Row
    pub behind : List Row
    pub split : rows ≡ front ++ at ∷ behind
    pub gone : AllGone front t
    pub kept : All (λ r. laws.row t r.version ≡ laws.row s r.version) behind
    pub same : e ≢ commit_failed at.version → laws.row t at.version ≡ laws.row s at.version
    pub ran : RanDownTo front at s e t

  -- No row of another version changes.
  abbrev pub Untouched : List Row → S → S → Type 0
  Untouched rows s t =
      (k : String) → contains (versions rows) k ≡ false → laws.row t k ≡ laws.row s k

  abbrev pub Reverted : List Row → S → Option MigrateError × S → Type 0
  Reverted rows s (none, t) =
      AllGone rows t × Untouched rows s t × (laws.ran t ≡ laws.ran s ++ downs registered rows)
  Reverted rows s (some e, t) = StoppedDown rows s t e × Untouched rows s t

  kept_apart :
      (v : String) (rows : List Row) (s t : S)
      → contains (versions rows) v ≡ false
      → OthersKept db laws v s t
      → All (λ r. laws.row t r.version ≡ laws.row s r.version) rows
  kept_apart v [] s t h kept = tt
  kept_apart v (r ∷ rows) s t h kept = (
    kept r.version (ground (arith, h, string_eq.eq_iff v r.version, string_eq.eq_iff r.version v)),
    kept_apart v rows s t (ground (arith, h)) kept,
  )

  contains-behind :
      (front behind : List Row) (at : Row) (v : String)
      → contains (versions (front ++ at ∷ behind)) v ≡ false
      → contains (versions behind) v ≡ false
  contains-behind [] behind at v h = ground (arith, h)
  contains-behind (r ∷ front) behind at v h = contains-behind front behind at v (ground (arith, h))

  contains-at :
      (front behind : List Row) (at : Row) (v : String)
      → contains (versions (front ++ at ∷ behind)) v ≡ false
      → (v == at.version) ≡ false
  contains-at [] behind at v h =
      ground (arith, h, string_eq.eq_iff v at.version, string_eq.eq_iff at.version v)
  contains-at (r ∷ front) behind at v h = contains-at front behind at v (ground (arith, h))

  all_kept :
      (v : String) (rows : List Row) (s u t : S)
      → contains (versions rows) v ≡ false
      → OthersKept db laws v s u
      → All (λ r. laws.row t r.version ≡ laws.row u r.version) rows
      → All (λ r. laws.row t r.version ≡ laws.row s r.version) rows
  all_kept v [] s u t h kept same = tt
  all_kept v (r ∷ rows) s u t h kept same = (
    same.0
        ∙ kept r.version
            (ground (arith, h, string_eq.eq_iff v r.version, string_eq.eq_iff r.version v)),
    all_kept v rows s u t (ground (arith, h)) kept same.1,
  )

  Reverted-next :
      (r : Row) (m : Migration) (rows : List Row) (s u : S) (next : Option MigrateError × S)
      → contains (versions rows) r.version ≡ false
      → find r.version registered ≡ some m
      → laws.ran u ≡ laws.ran s ++ m.down ∷ []
      → Gone db laws r.version s (none, u)
      → Reverted rows u next
      → Reverted (r ∷ rows) s next
  Reverted-next r m rows s u (none, t) new found first gone (all, untouched, ran) = (
    (untouched r.version new ∙ gone r.version ∙ ground (arith, beq_refl r.version), all),
    (λ k apart. untouched k (ground (arith, apart)) ∙ ground (arith, gone k, apart)),
    ran_on db laws m.down (downs registered rows) s u t first ran
        ∙ ap (λ l. laws.ran s ++ l) (sym (downs-found registered r rows m found)),
  )
  Reverted-next r m rows s u (some e, t) new found first gone (stopped, untouched) =
      let kept : OthersKept db laws r.version s u = λ k apart. ground (arith, gone k, apart) in
      let elsewhere = ap (λ l. contains (versions l) r.version) (sym stopped.split) ∙ new in
      (
        record {
          front = r ∷ stopped.front;
          at = stopped.at;
          behind = stopped.behind;
          split = ap (λ l. r ∷ l) stopped.split;
          gone = (
            untouched r.version new ∙ gone r.version ∙ ground (arith, beq_refl r.version),
            stopped.gone,
          );
          kept =
              all_kept r.version stopped.behind s u t
                (contains-behind stopped.front stopped.behind stopped.at r.version elsewhere) kept
                stopped.kept;
          same = λ not_commit.
              stopped.same not_commit
              ∙ kept stopped.at.version
                  (contains-at stopped.front stopped.behind stopped.at r.version elsewhere);
          ran = RanDownTo-next r m stopped.front stopped.at s u t e found first stopped.ran;
        },
        λ k apart. untouched k (ground (arith, apart)) ∙ ground (arith, gone k, apart),
      )

  Reverted-stop :
      (r : Row) (rows : List Row) (s u : S) (e : MigrateError)
      → contains (versions rows) r.version ≡ false
      → Gone db laws r.version s (some e, u)
      → RanDownTo [] r s e u
      → Reverted (r ∷ rows) s (some e, u)
  Reverted-stop r rows s u e new (kept, same) ran = (
    record {
      front = [];
      at = r;
      behind = rows;
      split = refl;
      gone = tt;
      kept = kept_apart r.version rows s u new kept;
      same = same;
      ran = ran;
    },
    λ k apart. kept k (ground (arith, apart)),
  )

  Reverted-one :
      (r : Row) (m : Migration) (rows : List Row) (s : S) (c : Option MigrateError × S)
      (next : S → Option MigrateError × S)
      → contains (versions rows) r.version ≡ false
      → find r.version registered ≡ some m
      → Undone db laws m s c
      → ((u : S) → Reverted rows u (next u))
      → Reverted (r ∷ rows) s (chain c next)
  Reverted-one r m rows s (none, u) next new found (gone, ran) rest =
      Reverted-next r m rows s u (next u) new found ran
        (subst (λ v. Gone db laws v s (none, u)) (find-version r.version registered m found) gone)
        (rest u)
  Reverted-one r m rows s (some e, u) next new found (gone, may) rest =
      Reverted-stop r rows s u e new
        (subst (λ v. Gone db laws v s (some e, u)) (find-version r.version registered m found) gone)
        (elim may [
          | inl not_run ↦ inl (not_run ∙ sym (append-nil (laws.ran s)))
          | inr (is, run) ↦ inr (m, found, is, run)
        ])

  revert_all-Reverted :
      (rows : List Row) (s : S)
      → Distinct (versions rows)
      → All (λ m. laws.is_safe m.down ≡ true) registered
      → Reverted rows s (revert_all db registered rows s)
  unfolding revert_all
  revert_all-Reverted [] s d safe = (tt, (λ k apart. refl), sym (append-nil (laws.ran s)))
  revert_all-Reverted (r ∷ rows) s d safe = elim (Option-cases (find r.version registered)) [
    | inl missing ↦
        rw (revert_all, missing)
          (Reverted-stop r rows s s (not_registered r.version) d.0
            (Gone-kept db laws r.version s s _ (λ k. refl)) (inl (sym (append-nil (laws.ran s)))))
    | inr (m, found) ↦
        let rest : (u : S) → Reverted rows u (revert_all db registered rows u) =
          λ u. revert_all-Reverted rows u d.1 safe in
        let one : Reverted (r ∷ rows) s
            (chain (apply_down db m s) (revert_all db registered rows)) =
          Reverted-one r m rows s (apply_down db m s) (revert_all db registered rows) d.0 found
            (apply_down-Undone db laws m s
              (find-All (λ x. laws.is_safe x.down ≡ true) r.version registered m safe found))
            rest in
        subst (Reverted (r ∷ rows) s) (sym (simp (revert_all, found) refl)) one
  ]

  -- Where the SQL of every registered Down leaves the tracking table alone and does not end the
  -- transaction, Down behind its start reverts the last `n` of the rows that were read, the last one
  -- first: if it answers no error they are all gone, and exactly their Downs came into force, in that
  -- order; at an error it stops, with those in front gone and their Downs in force, the row of the
  -- failed one as it was and its Down not in force (unless its commit failed) and those behind as they
  -- were. No other row changes.
  pub down-Reverted :
      (svc : Service) (n : ℤ) (s : S) (rows : List Row)
      → Started db svc s rows
      → registered_migrations svc.registered ≡ ok registered
      → Distinct (versions rows)
      → All (λ m. laws.is_safe m.down ≡ true) registered
      → Reverted (take (pos_part n) (reverse rows)) (reads db s) (down db svc n s)
  unfolding down revert_registered
  down-Reverted svc n s rows h e d safe =
      let ran : down db svc n s
          ≡ revert_all db registered (take (pos_part n) (reverse rows)) (reads db s) =
        Started-checked db svc
          (λ rows s.
            revert_registered db (take (pos_part n) (reverse rows))
              (registered_migrations svc.registered) s)
          s rows h
        ∙ ap (λ r. revert_registered db (take (pos_part n) (reverse rows)) r (reads db s)) e in
      subst (Reverted (take (pos_part n) (reverse rows)) (reads db s)) (sym ran) (
        revert_all-Reverted (take (pos_part n) (reverse rows)) (reads db s)
          (Distinct-take (pos_part n) (reverse rows)
            (Distinct-reverse_aux rows [] d tt (λ k there. refl)))
          safe)
