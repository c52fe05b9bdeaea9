-- ===== src/Migrate/Pending.antt =====
-- RunPending: what is applied, in which order, where it stops, and that it is done once.
use gas.Prelude.{
  String, string_eq, string_order, ◌==◌, true, false, Option, none, some, List, [], ◌∷◌, ◌++◌,
  if◌then◌else◌, contains, All, ◌≡◌, ◌≢◌, sym, append-nil, inl, inr, refl, ap, ◌∙◌, subst, arith,
  Bool-cases, beq_refl, Ascends, Above,
}
use gas.Migrate.{Migration, MigrateError, begin_failed}
use gas.Migrate.Run.{Database, apply_up, apply_pending, chain}
use gas.Migrate.Tracking.{Tracks}
use gas.Migrate.Apply.{OthersKept, Marked, Applied, apply_up-Applied}
use gas.Migrate.InForce.{
  ups, RanUpTo, ups-applied, ups-pending, RanUpTo-applied, ran_on, RanUpTo-pending,
}

abbrev version : Migration → String
version m = m.version

module _ {S : Type 0} (db : Database S) (laws : Tracks db) where
  -- After the loop: the versions of `ms` are applied and clean, if they were not applied before.
  abbrev pub AllClean : List String → List Migration → S → Type 0
  AllClean applied ms t =
      All (λ m. contains applied m.version ≡ false → laws.row t m.version ≡ some false) ms

  abbrev pub AllKept : List Migration → S → S → Type 0
  AllKept ms s t = All (λ m. laws.row t m.version ≡ laws.row s m.version) ms

  -- Where the loop stops at an error: all migrations in front of `at` are applied, `at` failed, and
  -- those behind it are as they were.
  pub record StoppedAt (applied : List String) (ms : List Migration) (s t : S) (e : MigrateError)
      : Type 0 where
    pub front : List Migration
    pub at : Migration
    pub behind : List Migration
    pub split : ms ≡ front ++ at ∷ behind
    pub pending : contains applied at.version ≡ false
    pub clean : AllClean applied front t
    pub kept : AllKept behind s t
    pub dirty : e ≢ begin_failed at.version → Marked db laws at t
    pub ran : RanUpTo db laws applied front at s e t

  -- Nothing but the versions of `ms` that are not applied changes.
  abbrev pub Elsewhere : List String → List Migration → S → S → Type 0
  Elsewhere applied ms s t =
      (k : String)
      → All (λ m. contains applied m.version ≡ false → (m.version == k) ≡ false) ms
      → laws.row t k ≡ laws.row s k

  abbrev pub After : List String → List Migration → S → Option MigrateError × S → Type 0
  After applied ms s (none, t) =
      AllClean applied ms t
      × Elsewhere applied ms s t
      × (laws.ran t ≡ laws.ran s ++ ups db laws applied ms)
  After applied ms s (some e, t) = StoppedAt applied ms s t e × Elsewhere applied ms s t

  All-pending :
      (applied : List String) (k : String) (ms : List Migration)
      → All (λ m. (m.version == k) ≡ false) ms
      → All (λ m. contains applied m.version ≡ false → (m.version == k) ≡ false) ms
  All-pending applied k [] h = tt
  All-pending applied k (m ∷ ms) h = ((λ new. h.0), All-pending applied k ms h.1)

  Above-apart :
      (k : String) (ms : List Migration)
      → Above version k ms
      → All (λ m. (m.version == k) ≡ false) ms
  Above-apart k [] a = tt
  Above-apart k (m ∷ ms) a = (
    ground (arith, a.0, string_eq.eq_iff m.version k, string_order.irrefl m.version),
    Above-apart k ms a.1,
  )

  apply_pending-skip :
      (applied : List String) (m : Migration) (ms : List Migration) (s : S)
      (r : Option MigrateError × S)
      → contains applied m.version ≡ true
      → After applied ms s r
      → After applied (m ∷ ms) s r
  apply_pending-skip applied m ms s (none, t) there (clean, elsewhere, ran) = (
    ((λ not_there. ground (arith, there, not_there)), clean),
    (λ k apart. elsewhere k apart.1),
    ran ∙ ap (λ l. laws.ran s ++ l) (sym (ups-applied db laws applied m ms there)),
  )
  apply_pending-skip applied m ms s (some e, t) there (stopped, elsewhere) = (
    record {
      front = m ∷ stopped.front;
      at = stopped.at;
      behind = stopped.behind;
      split = ap (λ l. m ∷ l) stopped.split;
      pending = stopped.pending;
      clean = (λ not_there. ground (arith, there, not_there), stopped.clean);
      kept = stopped.kept;
      dirty = stopped.dirty;
      ran = RanUpTo-applied db laws applied m stopped.front stopped.at s t e there stopped.ran;
    },
    λ k apart. elsewhere k apart.1,
  )

  All-behind :
      (P : Migration → Type 0) (front behind : List Migration) (at : Migration)
      → All P (front ++ at ∷ behind)
      → All P behind
  All-behind P [] behind at h = h.1
  All-behind P (x ∷ front) behind at h = All-behind P front behind at h.1

  AllKept-before :
      (m : Migration) (behind : List Migration) (s u t : S)
      → OthersKept db laws m.version s u
      → All (λ x. (x.version == m.version) ≡ false) behind
      → AllKept behind u t
      → AllKept behind s t
  AllKept-before m [] s u t kept a h = tt
  AllKept-before m (x ∷ behind) s u t kept a h = (
    h.0
        ∙ kept x.version (
            ground (
              arith,
              a.0,
              string_eq.eq_iff x.version m.version,
              string_eq.eq_iff m.version x.version,
            )),
    AllKept-before m behind s u t kept a.1 h.1,
  )

  -- One migration is applied, and then the rest.
  apply_pending-next :
      (applied : List String) (m : Migration) (ms : List Migration) (s u : S)
      (r : Option MigrateError × S)
      → contains applied m.version ≡ false
      → Above version m.version ms
      → ((k : String) → laws.row u k ≡ (if m.version == k then some false else laws.row s k))
      → laws.ran u ≡ laws.ran s ++ m.up ∷ []
      → After applied ms u r
      → After applied (m ∷ ms) s r
  apply_pending-next applied m ms s u (none, t) pending above done first (clean, elsewhere, ran) = (
    (
      λ new.
          elsewhere m.version (All-pending applied m.version ms (Above-apart m.version ms above))
          ∙ done m.version
          ∙ ground (arith, beq_refl m.version),
      clean,
    ),
    (λ k apart. elsewhere k apart.1 ∙ ground (arith, done k, apart.0 pending)),
    ran_on db laws m.up (ups db laws applied ms) s u t first ran
        ∙ ap (λ l. laws.ran s ++ l) (sym (ups-pending db laws applied m ms pending)),
  )
  apply_pending-next applied m ms s u (some e, t) pending above done first (stopped, elsewhere) = (
    record {
      front = m ∷ stopped.front;
      at = stopped.at;
      behind = stopped.behind;
      split = ap (λ l. m ∷ l) stopped.split;
      pending = stopped.pending;
      clean = (
        λ new.
            elsewhere m.version (All-pending applied m.version ms (Above-apart m.version ms above))
            ∙ done m.version
            ∙ ground (arith, beq_refl m.version),
        stopped.clean,
      );
      kept =
          AllKept-before m stopped.behind s u t (λ k apart. ground (arith, done k, apart))
            (All-behind (λ x. (x.version == m.version) ≡ false) stopped.front stopped.behind
              stopped.at
              (subst (All (λ x. (x.version == m.version) ≡ false)) stopped.split
                (Above-apart m.version ms above)))
            stopped.kept;
      dirty = stopped.dirty;
      ran =
          RanUpTo-pending db laws applied m stopped.front stopped.at s u t e pending first
            stopped.ran;
    },
    λ k apart. elsewhere k apart.1 ∙ ground (arith, done k, apart.0 pending),
  )

  AllKept-apart :
      (v : String) (ms : List Migration) (s t : S)
      → OthersKept db laws v s t
      → All (λ x. (x.version == v) ≡ false) ms
      → AllKept ms s t
  AllKept-apart v [] s t kept a = tt
  AllKept-apart v (x ∷ ms) s t kept a = (
    kept x.version
        (ground (arith, a.0, string_eq.eq_iff x.version v, string_eq.eq_iff v x.version)),
    AllKept-apart v ms s t kept a.1,
  )

  apply_pending-one :
      (applied : List String) (m : Migration) (ms : List Migration) (s : S)
      (r : Option MigrateError × S)
      → contains applied m.version ≡ false
      → Above version m.version ms
      → Applied db laws m s r
      → ((u : S) → After applied ms u (apply_pending db applied ms u))
      → After applied (m ∷ ms) s (chain r (apply_pending db applied ms))
  apply_pending-one applied m ms s (none, u) new above done rest =
      apply_pending-next applied m ms s u (apply_pending db applied ms u) new above done.0 done.1
        (rest u)
  apply_pending-one applied m ms s (some e, u) new above (others, failed, may) rest = (
    record {
      front = [];
      at = m;
      behind = ms;
      split = refl;
      pending = new;
      clean = tt;
      kept = AllKept-apart m.version ms s u others (Above-apart m.version ms above);
      dirty = failed;
      ran = elim may [
        | inl not_run ↦ inl (not_run ∙ sym (append-nil (laws.ran s)))
        | inr run ↦ inr run
      ];
    },
    λ k apart. others k (apart.0 new),
  )

  -- The loop over migrations of ascending versions
  pub apply_pending-After :
      (applied : List String) (ms : List Migration) (s : S)
      → Ascends version ms
      → All (λ m. laws.is_safe m.up ≡ true) ms
      → After applied ms s (apply_pending db applied ms s)
  unfolding apply_pending
  apply_pending-After applied [] s a safe = (tt, (λ k apart. refl), sym (append-nil (laws.ran s)))
  apply_pending-After applied (m ∷ ms) s a safe = elim (Bool-cases (contains applied m.version)) [
    | inl there ↦
        rw (apply_pending, there)
          (apply_pending-skip applied m ms s (apply_pending db applied ms s) there
            (apply_pending-After applied ms s a.1 safe.1))
    | inr new ↦
        rw (apply_pending, new)
          (apply_pending-one applied m ms s (apply_up db m s) new a.0
            (apply_up-Applied db laws m s safe.0)
            (λ u. apply_pending-After applied ms u a.1 safe.1))
  ]
