-- ===== src/Di/Resolve/Frame.antt =====
-- What a resolution leaves as it was: the goroutine's stack, the running builds, the registrations
-- and aliases, and every instance that was there.
use gas.Prelude.{
  ℕ, zero, suc, nat_eq, ◌≡◌, refl, sym, ◌∙◌, ap, true, Option, none, some, List, [], ◌∷◌, ◌++◌,
  arith, nat_beq_iff, Option-cases, inl, inr, subst,
}
use gas.Maps
use gas.Maps.Laws.{lookup-insert, lookup-delete}
use gas.OrderedMap.{get}
use gas.OrderedMap.Reads.{get-set}
use gas.Di.{TypeId, ServiceLifetime, singleton, scoped, transient, other, Result, ok, err}
use gas.Di.Container.{Value, Reflect, Container}
use gas.Di.Guard.{stack_of, enter_build, leave_build}
use gas.Di.Resolve.Enter.{stack-leave_build, pushed, EnterCases, enter_cases}
use gas.Di.Resolve.{
  Called, built, failed, State, M, after, resolve_ctor_args, init_instance, construct, leaving,
  invoke, finish_build, await_build, resolve_singleton, resolve_target, resolve_type, entered,
  init_called, by_lifetime,
}

pub record Frame (gid : ℕ) (a b : Container) : Type 0 where
  pub stack : stack_of gid b ≡ stack_of gid a
  pub registrations : b.registrations ≡ a.registrations
  pub aliases : b.aliases ≡ a.aliases
  pub builds : (t : TypeId) → Maps.lookup t b.builds ≡ Maps.lookup t a.builds
  pub kept : (t : TypeId) (v : Value) → get a.instances t ≡ some v → get b.instances t ≡ some v
  -- What is being built is not built meanwhile.
  pub guarded : (t : TypeId) → Maps.has t a.builds ≡ true → get b.instances t ≡ get a.instances t

pub Frame-refl : (gid : ℕ) (a : Container) → Frame gid a a
Frame-refl gid a = record {
  stack = refl;
  registrations = refl;
  aliases = refl;
  builds = λ t. refl;
  kept = λ t v h. h;
  guarded = λ t h. refl;
}

pub Frame-trans : {gid : ℕ} {a b c : Container} → Frame gid a b → Frame gid b c → Frame gid a c
Frame-trans f g = record {
  stack = g.stack ∙ f.stack;
  registrations = g.registrations ∙ f.registrations;
  aliases = g.aliases ∙ f.aliases;
  builds = λ t. g.builds t ∙ f.builds t;
  kept = λ t v h. g.kept t v (f.kept t v h);
  guarded = λ t h. g.guarded t (ap Maps.is_some (f.builds t) ∙ h) ∙ f.guarded t h;
}

module _ {W : Type 0} (r : Reflect) (gid : ℕ) (call : TypeId → List Value → W → Called × W)
    (init : TypeId → Value → W → Option ℕ × W) where
  -- Every call keeps the frame.
  abbrev pub Keeps : {A : Type 0} → M W A → Type 0
  Keeps m = (s : State W) → Frame gid s.c (m s).1.c

  abbrev pub AllKeep : (TypeId → M W Value) → Type 0
  AllKeep resolve = (t : TypeId) → Keeps (resolve t)

  after-Frame :
      {A B : Type 0} (a : Container) (x : Result A × State W) (f : A → M W B)
      → Frame gid a x.1.c
      → ((v : A) → Keeps (f v))
      → Frame gid a (after x f).1.c
  after-Frame a (ok v, s) f h k = Frame-trans h (k v s)
  after-Frame a (err e, s) f h k = h

  pub resolve_ctor_args-Keeps :
      (resolve : TypeId → M W Value) (ins : List TypeId)
      → AllKeep resolve
      → Keeps (resolve_ctor_args r gid call init resolve ins)
  unfolding resolve_ctor_args
  resolve_ctor_args-Keeps resolve [] k s = Frame-refl gid s.c
  resolve_ctor_args-Keeps resolve (dep ∷ ins) k s =
      after-Frame s.c (resolve dep s) _ (k dep s) λ v s'.
        after-Frame s'.c (resolve_ctor_args r gid call init resolve ins s') _
          (resolve_ctor_args-Keeps resolve ins k s') (λ args s''. Frame-refl gid s''.c)

  init_instance-container :
      (t : TypeId) (v : Value) (s : State W) → (init_instance r gid call init t v s).1.c ≡ s.c
  unfolding init_instance
  init_instance-container t v s = ground arith

  init_called-container :
      (t : TypeId) (x : Called) (s : State W) → (init_called r gid call init t x s).1.c ≡ s.c
  unfolding init_called
  init_called-container t (failed e) s = refl
  init_called-container t (built v) s = init_instance-container t v s

  construct-Keeps :
      (resolve : TypeId → M W Value) (t : TypeId) (ins : List TypeId)
      → AllKeep resolve
      → Keeps (construct r gid call init resolve t ins)
  unfolding construct
  construct-Keeps resolve t ins k s =
      after-Frame s.c (resolve_ctor_args r gid call init resolve ins s) _
        (resolve_ctor_args-Keeps resolve ins k s)
        λ args s'.
          let (result, w) = call t args s'.world in
          subst (Frame gid s'.c) (sym (init_called-container t result (record s' { world = w })))
            (Frame-refl gid s'.c)

  -- The body of invoke between enterBuild and the deferred leaveBuild.
  leaving-Frame :
      {A : Type 0} (t : TypeId) (c : Container) (x : Result A × State W)
      → Frame gid (pushed gid t c) x.1.c
      → Frame gid c (leaving r gid call init x).1.c
  leaving-Frame t c (result, s) f = record {
    stack = stack-leave_build gid s.c (stack_of gid c) t (
        f.stack
        ∙ ground (
          arith,
          lookup-insert gid gid (stack_of gid c ++ t ∷ []) c.stacks,
          nat_beq_iff gid gid,
        ));
    registrations = unfold leave_build in f.registrations;
    aliases = unfold leave_build in f.aliases;
    builds = unfold leave_build in f.builds;
    kept = unfold leave_build in f.kept;
    guarded = unfold leave_build in f.guarded;
  }

  entered-Frame :
      (resolve : TypeId → M W Value) (t : TypeId) (ins : List TypeId)
      → AllKeep resolve
      → (s : State W) → EnterCases gid t s.c
      → Frame gid s.c (entered r gid call init resolve t ins (enter_build gid t s.c) s.world).1.c
  unfolding entered
  entered-Frame resolve t ins k s (inl (e, refused, real)) =
      rw (refused, entered) (Frame-refl gid s.c)
  entered-Frame resolve t ins k s (inr (accepted, room)) =
      rw (accepted, entered)
        (leaving-Frame {A = Value} t s.c
          (construct r gid call init resolve t ins
            (record { c = pushed gid t s.c; world = s.world }))
          (construct-Keeps resolve t ins k (record { c = pushed gid t s.c; world = s.world })))

  pub invoke-Keeps :
      (resolve : TypeId → M W Value) (t : TypeId)
      → AllKeep resolve
      → Keeps (invoke r gid call init resolve t)
  unfolding invoke
  invoke-Keeps resolve t k s = elim (Option-cases (get s.c.registrations t)) [
    | inl missing ↦ rw (missing, invoke) (Frame-refl gid s.c)
    | inr (reg, found) ↦
        rw (found, invoke) (entered-Frame resolve t reg.ctor.ins k s (enter_cases gid t s.c))
  ]

  finish_build-Frame :
      (t : TypeId) (a : Container) (x : Result Value × State W)
      → get a.instances t ≡ none
      → Maps.lookup t a.builds ≡ none
      → Frame gid (record a { builds = Maps.insert t gid a.builds }) x.1.c
      → Frame gid a (finish_build r gid call init t x).1.c
  unfolding finish_build
  finish_build-Frame t a (ok v, s) fresh idle f = record {
    stack = f.stack;
    registrations = f.registrations;
    aliases = f.aliases;
    builds = λ u. ground (
      arith,
      f.builds u,
      lookup-delete t u s.c.builds,
      lookup-insert t u gid a.builds,
      nat_beq_iff t u,
    );
    kept = λ u v' h. ground (arith, f.kept u v', get-set s.c.instances t u v, nat_beq_iff t u);
    guarded = λ u h. ground (
      arith,
      f.guarded u,
      get-set s.c.instances t u v,
      nat_beq_iff t u,
      lookup-insert t u gid a.builds,
    );
  }
  finish_build-Frame t a (err e, s) fresh idle f = record {
    stack = f.stack;
    registrations = f.registrations;
    aliases = f.aliases;
    builds = λ u. ground (
      arith,
      f.builds u,
      lookup-delete t u s.c.builds,
      lookup-insert t u gid a.builds,
      nat_beq_iff t u,
    );
    kept = f.kept;
    guarded = λ u h. ground (arith, f.guarded u, lookup-insert t u gid a.builds);
  }

  await_build-container :
      (t : TypeId) (b : ℕ) (s : State W) → (await_build r gid call init t b s).1 ≡ s
  unfolding await_build
  await_build-container t b s = ground arith

  resolve_singleton-Keeps :
      (resolve : TypeId → M W Value) (t : TypeId)
      → AllKeep resolve
      → Keeps (resolve_singleton r gid call init resolve t)
  unfolding resolve_singleton
  resolve_singleton-Keeps resolve t k s = elim (Option-cases (get s.c.instances t)) [
    | inr (v, there) ↦ rw (there, resolve_singleton) (Frame-refl gid s.c)
    | inl fresh ↦ elim (Option-cases (Maps.lookup t s.c.builds)) [
      | inr (b, busy) ↦
          rw (fresh, busy, resolve_singleton)
            (subst (λ (s' : State W). Frame gid s.c s'.c) (sym (await_build-container t b s))
              (Frame-refl gid s.c))
      | inl idle ↦
          rw (fresh, idle, resolve_singleton)
            (finish_build-Frame t s.c _ fresh idle (
              invoke-Keeps resolve t k
                (record s { c = record s.c { builds = Maps.insert t gid s.c.builds } })))
    ]
  ]

  by_lifetime-Keeps :
      (resolve : TypeId → M W Value) (t : TypeId) (lifetime : ServiceLifetime)
      → AllKeep resolve
      → Keeps (by_lifetime r gid call init resolve t lifetime)
  unfolding by_lifetime
  by_lifetime-Keeps resolve t singleton k s = resolve_singleton-Keeps resolve t k s
  by_lifetime-Keeps resolve t transient k s = invoke-Keeps resolve t k s
  by_lifetime-Keeps resolve t scoped k s = Frame-refl gid s.c
  by_lifetime-Keeps resolve t (other n) k s = Frame-refl gid s.c

  resolve_target-Keeps :
      (resolve : TypeId → M W Value) (t : TypeId)
      → AllKeep resolve
      → Keeps (resolve_target r gid call init resolve t)
  unfolding resolve_target
  resolve_target-Keeps resolve t k s = elim (Option-cases (get s.c.instances t)) [
    | inr (v, there) ↦ rw (there, resolve_target) (Frame-refl gid s.c)
    | inl fresh ↦ elim (Option-cases (get s.c.registrations t)) [
      | inl missing ↦ rw (fresh, missing, resolve_target) (Frame-refl gid s.c)
      | inr (reg, found) ↦
          rw (fresh, found, resolve_target) (by_lifetime-Keeps resolve t reg.lifetime k s)
    ]
  ]

  -- Where the constructors and the Inits return (by a value or an error) and do not use the container,
  -- resolving a type, whether it succeeds or not, leaves the goroutine's stack, the running builds, the
  -- registrations and the aliases as they were, keeps every instance, and caches nothing for a type
  -- that is being built around it.
  pub resolve_type-Frame :
      (fuel : ℕ) (t : TypeId) (s : State W)
      → Frame gid s.c (resolve_type r gid call init fuel t s).1.c
  unfolding resolve_type
  resolve_type-Frame zero t s = Frame-refl gid s.c
  resolve_type-Frame (suc fuel) t s =
      resolve_target-Keeps (resolve_type r gid call init fuel) _ (resolve_type-Frame fuel) s
