-- ===== src/Di/Resolve/Totality.antt =====
-- Resolution ends: the fuel is used up only by nested constructors, and enterBuild bounds those.
use gas.Prelude.{
  ℕ, zero, suc, ◌+◌, ◌≤◌, ◌<◌, nat_eq, ◌≡◌, ◌≢◌, some, sym, ◌∙◌, ap, Option, List, [], ◌∷◌, ◌++◌,
  arith, nat_beq_iff, length, length-append, Option-cases, inl, inr,
}
use gas.Maps
use gas.Maps.Laws.{lookup-insert}
use gas.OrderedMap.{get}
use gas.Di.{
  TypeId, ServiceLifetime, singleton, scoped, transient, other, Result, ok, err, waits_for,
  out_of_fuel, alias_target,
}
use gas.Di.Container.{Value, Reflect, Container, validate_service_shape}
use gas.Di.Guard.{stack_of, enter_build, max_resolve_depth}
use gas.Di.Resolve.{
  Called, built, failed, State, M, after, resolve_ctor_args, construct, invoke, finish_build,
  resolve_singleton, resolve_target, resolve_type, entered, init_called, init_result, by_lifetime,
}
use gas.Di.Resolve.Enter.{EnterCases, enter_cases, pushed}
use gas.Di.Resolve.Frame.{Frame, AllKeep, resolve_ctor_args-Keeps, resolve_type-Frame}

module _ {W : Type 0} (r : Reflect) (gid : ℕ) (call : TypeId → List Value → W → Called × W)
    (init : TypeId → Value → W → Option ℕ × W) where
  abbrev depth : State W → ℕ
  depth s = length (stack_of gid s.c)

  -- Every build that runs is one of this goroutine.
  abbrev pub Alone : Container → Type 0
  Alone c = (u : TypeId) (b : ℕ) → Maps.lookup u c.builds ≡ some b → b ≡ gid

  -- The call has a result of the program, and waits for nobody where no other goroutine builds.
  abbrev pub Ends : {A : Type 0} → Container → Result A × State W → Type 0
  Ends c x = (x.0 ≢ err out_of_fuel) × (Alone c → (u : TypeId) → x.0 ≢ err (waits_for u))

  Ends-Frame :
      {A : Type 0} (c d : Container) (x : Result A × State W) → Frame gid c d → Ends d x → Ends c x
  Ends-Frame c d x frame h = (h.0, λ alone. h.1 (λ u b e. alone u b (sym (frame.builds u) ∙ e)))

  -- The resolver ends wherever `n` constructors are running.
  abbrev EndsAt : ℕ → (TypeId → M W Value) → Type 0
  EndsAt n resolve = (t : TypeId) (s : State W) → depth s ≡ n → Ends s.c (resolve t s)

  after-Ends :
      {A B : Type 0} (c : Container) (x : Result A × State W) (f : A → M W B)
      → Frame gid c x.1.c
      → Ends c x
      → ((a : A) (s : State W) → stack_of gid s.c ≡ stack_of gid c → Ends s.c (f a s))
      → Ends c (after x f)
  after-Ends c (ok a, s) f k h g = Ends-Frame c s.c (f a s) k (g a s k.stack)
  after-Ends c (err e, s) f k h g =
      ((λ p. h.0 (ground (arith, p))), λ alone u p. h.1 alone u (ground (arith, p)))

  resolve_ctor_args-Ends :
      (resolve : TypeId → M W Value) (n : ℕ) (ins : List TypeId) (s : State W)
      → AllKeep r gid call init resolve
      → EndsAt n resolve
      → depth s ≡ n
      → Ends s.c (resolve_ctor_args r gid call init resolve ins s)
  unfolding resolve_ctor_args
  resolve_ctor_args-Ends resolve n [] s k h d = ((λ p. cc), λ alone u p. cc)
  resolve_ctor_args-Ends resolve n (dep ∷ ins) s k h d =
      after-Ends s.c (resolve dep s) _ (k dep s) (h dep s d) λ v s' same.
        after-Ends s'.c (resolve_ctor_args r gid call init resolve ins s') _
          (resolve_ctor_args-Keeps r gid call init resolve ins k s')
          (resolve_ctor_args-Ends resolve n ins s' k h (ap length same ∙ d))
          (λ args s'' same'. ((λ p. cc), λ alone u p. cc))

  init_called-Ends :
      (t : TypeId) (x : Called) (s : State W) → Ends s.c (init_called r gid call init t x s)
  unfolding init_called init_result validate_service_shape
  init_called-Ends t (failed e) s = ((λ p. cc), λ alone u p. cc)
  init_called-Ends t (built v) s = ((λ p. ground arith), λ alone u p. ground arith)

  construct-Ends :
      (resolve : TypeId → M W Value) (n : ℕ) (t : TypeId) (ins : List TypeId) (s : State W)
      → AllKeep r gid call init resolve
      → EndsAt n resolve
      → depth s ≡ n
      → Ends s.c (construct r gid call init resolve t ins s)
  unfolding construct
  construct-Ends resolve n t ins s k h d =
      after-Ends s.c (resolve_ctor_args r gid call init resolve ins s) _
        (resolve_ctor_args-Keeps r gid call init resolve ins k s)
        (resolve_ctor_args-Ends resolve n ins s k h d)
        λ args s' same.
          let (result, w) = call t args s'.world in
          init_called-Ends t result (record s' { world = w })

  -- A resolver that ends below every constructor that may still be entered.
  abbrev EndsBelow : ℕ → (TypeId → M W Value) → Type 0
  EndsBelow d resolve = d < max_resolve_depth → EndsAt (d + 1) resolve

  entered-Ends :
      (resolve : TypeId → M W Value) (t : TypeId) (ins : List TypeId) (s : State W)
      → AllKeep r gid call init resolve
      → EndsBelow (depth s) resolve
      → EnterCases gid t s.c
      → Ends s.c (entered r gid call init resolve t ins (enter_build gid t s.c) s.world)
  unfolding entered
  entered-Ends resolve t ins s k h (inl (e, refused, real)) =
      rw (refused, entered) ((λ p. ground (arith, real, p)), λ alone u p. ground (arith, real, p))
  entered-Ends resolve t ins s k h (inr (accepted, room)) =
      rw (accepted, entered)
        (construct-Ends resolve (depth s + 1) t ins
          (record { c = pushed gid t s.c; world = s.world }) k (h room)
          (ground (
            arith,
            lookup-insert gid gid (stack_of gid s.c ++ t ∷ []) s.c.stacks,
            nat_beq_iff gid gid,
            length-append (stack_of gid s.c) (t ∷ []),
          )))

  module _ (resolve : TypeId → M W Value) (t : TypeId) (s : State W)
      (keeps : AllKeep r gid call init resolve) where
    invoke-Ends : EndsBelow (depth s) resolve → Ends s.c (invoke r gid call init resolve t s)
    unfolding invoke
    invoke-Ends h = elim (Option-cases (get s.c.registrations t)) [
      | inl missing ↦ rw (missing, invoke) ((λ p. cc), λ alone u p. cc)
      | inr (reg, found) ↦
          rw (found, invoke) (entered-Ends resolve t reg.ctor.ins s keeps h (enter_cases gid t s.c))
    ]

finish_build-Ends :
    {W : Type 0} (r : Reflect) (gid : ℕ) (call : TypeId → List Value → W → Called × W)
    (init : TypeId → Value → W → Option ℕ × W) (t : TypeId) (c : Container)
    (x : Result Value × State W)
    → Ends r gid call init c x
    → Ends r gid call init c (finish_build r gid call init t x)
unfolding finish_build
finish_build-Ends r gid call init t c (ok v, s) h = ((λ p. cc), λ alone u p. cc)
finish_build-Ends r gid call init t c (err e, s) h = h

-- A build of this goroutine that starts
Alone-insert :
    {W : Type 0} (r : Reflect) (gid : ℕ) (call : TypeId → List Value → W → Called × W)
    (init : TypeId → Value → W → Option ℕ × W) (t : TypeId) (c : Container)
    → Alone r gid call init c
    → Alone r gid call init (record c { builds = Maps.insert t gid c.builds })
Alone-insert r gid call init t c alone u b h =
    ground (arith, lookup-insert t u gid c.builds, h, alone u b)

module _ {W : Type 0} (r : Reflect) (gid : ℕ) (call : TypeId → List Value → W → Called × W)
    (init : TypeId → Value → W → Option ℕ × W) (resolve : TypeId → M W Value) (t : TypeId)
    (s : State W) (keeps : AllKeep r gid call init resolve)
    (below : EndsBelow r gid call init (length (stack_of gid s.c)) resolve) where
  resolve_singleton-Ends : Ends r gid call init s.c (resolve_singleton r gid call init resolve t s)
  unfolding resolve_singleton
  resolve_singleton-Ends = elim (Option-cases (get s.c.instances t)) [
    | inr (v, there) ↦ rw (there, resolve_singleton) ((λ p. cc), λ alone u p. cc)
    | inl fresh ↦ elim (Option-cases (Maps.lookup t s.c.builds)) [
      | inr (b, busy) ↦
          rw (fresh, busy, resolve_singleton)
            ((λ p. ground arith), λ alone u p. ground (arith, p, alone t b busy, nat_beq_iff b gid))
      | inl idle ↦
          let c' : Container = record s.c { builds = Maps.insert t gid s.c.builds } in
          let ran =
            finish_build-Ends r gid call init t c' _
              (invoke-Ends r gid call init resolve t (record s { c = c' }) keeps below) in
          rw (fresh, idle, resolve_singleton)
            (ran.0, λ alone. ran.1 (Alone-insert r gid call init t s.c alone))
    ]
  ]

  by_lifetime-Ends :
      (lifetime : ServiceLifetime)
      → Ends r gid call init s.c (by_lifetime r gid call init resolve t lifetime s)
  unfolding by_lifetime
  by_lifetime-Ends singleton = resolve_singleton-Ends
  by_lifetime-Ends transient = invoke-Ends r gid call init resolve t s keeps below
  by_lifetime-Ends scoped = ((λ p. cc), λ alone u p. cc)
  by_lifetime-Ends (other n) = ((λ p. cc), λ alone u p. cc)

  resolve_target-Ends : Ends r gid call init s.c (resolve_target r gid call init resolve t s)
  unfolding resolve_target
  resolve_target-Ends = elim (Option-cases (get s.c.instances t)) [
    | inr (v, there) ↦ rw (there, resolve_target) ((λ p. cc), λ alone u p. cc)
    | inl fresh ↦ elim (Option-cases (get s.c.registrations t)) [
      | inl missing ↦ rw (fresh, missing, resolve_target) ((λ p. cc), λ alone u p. cc)
      | inr (reg, found) ↦ rw (fresh, found, resolve_target) (by_lifetime-Ends reg.lifetime)
    ]
  ]

module _ {W : Type 0} (r : Reflect) (gid : ℕ) (call : TypeId → List Value → W → Called × W)
    (init : TypeId → Value → W → Option ℕ × W) where
  -- With fuel for the constructors that may still nest, at most 256 in all, a resolution does not use
  -- up the fuel, also where the constructors depend on each other in cycles; and where every build that
  -- runs when it starts is one of this goroutine, it does not wait either, so that it ends by a value
  -- or by an error of the program.
  pub resolve_type-total :
      (fuel : ℕ) (t : TypeId) (s : State W)
      → 1 ≤ fuel
      → 257 ≤ length (stack_of gid s.c) + fuel
      → ((resolve_type r gid call init fuel t s).0 ≢ err out_of_fuel)
        × (Alone r gid call init s.c
            → (u : TypeId) → (resolve_type r gid call init fuel t s).0 ≢ err (waits_for u))
  unfolding resolve_type
  resolve_type-total zero t s h k = absurd (omega arith)
  resolve_type-total (suc fuel) t s h k =
      resolve_target-Ends r gid call init (resolve_type r gid call init fuel)
        (alias_target s.c.aliases t) s (resolve_type-Frame r gid call init fuel)
        (λ room u s' d. resolve_type-total fuel u s' (omega arith) (omega (arith)))
