-- ===== src/Di/TopoSort/Start.antt =====
-- What topoSort computes before its loop: the dependencies.
use gas.Prelude.{
  nat_eq, ◌==◌, ◌≡◌, sym, ◌∙◌, Option, none, some, List, [], ◌∷◌, ◌++◌, map, if◌then◌else◌, arith,
  Distinct, nat_beq_iff, append_assoc, append-nil,
}
use gas.Maps
use gas.Maps.{Map}
use gas.Maps.Laws.{contains-keys}
use gas.OrderedMap.{OrderedMap, get, set, all, empty}
use gas.OrderedMap.Refinement.{IsValid, empty-IsValid, set-IsValid, get-all}
use gas.OrderedMap.Reads.{get-set, Distinct-all}
use gas.Di.{TypeId, Registration, alias_target}
use gas.Di.TopoSort.{Deps, or_empty, add_ins, add_deps, zero_registration, deps_of}

-- The parameters of a registered constructor, behind their aliases: what the type depends on.
abbrev pub targets_of : OrderedMap TypeId TypeId → Option Registration → List TypeId
targets_of aliases none = []
targets_of aliases (some reg) = map (alias_target aliases) reg.ctor.ins

abbrev pub dependencies :
    OrderedMap TypeId TypeId → OrderedMap TypeId Registration → TypeId → List TypeId
dependencies aliases regs t = targets_of aliases (get regs t)

abbrev pub deps_at : Deps → TypeId → List TypeId
deps_at deps t = or_empty (get deps t)

module _ (aliases : OrderedMap TypeId TypeId) where
  add_ins-IsValid :
      (t : TypeId) (ins : List TypeId) (deps : Deps)
      → IsValid deps
      → IsValid (add_ins aliases t ins deps)
  unfolding add_ins
  add_ins-IsValid t [] deps h = h
  add_ins-IsValid t (i ∷ ins) deps h = add_ins-IsValid t ins _ (set-IsValid deps t _ h)

  add_deps-IsValid :
      (regs : List (TypeId × Registration)) (deps : Deps)
      → IsValid deps
      → IsValid (add_deps aliases regs deps)
  unfolding add_deps
  add_deps-IsValid [] deps h = h
  add_deps-IsValid ((t, reg) ∷ regs) deps h =
      add_deps-IsValid regs _ (add_ins-IsValid t reg.ctor.ins deps h)

  deps_at-add_ins :
      (t u : TypeId) (ins : List TypeId) (deps : Deps)
      → deps_at (add_ins aliases t ins deps) u
        ≡ (if t == u then deps_at deps t ++ map (alias_target aliases) ins else deps_at deps u)
  unfolding add_ins
  deps_at-add_ins t u [] deps = ground (arith, append-nil (deps_at deps t), nat_beq_iff t u)
  deps_at-add_ins t u (i ∷ ins) deps =
      let v = deps_at deps t ++ alias_target aliases i ∷ [] in
      let rest = map (alias_target aliases) ins in
      ground (
        arith,
        deps_at-add_ins t u ins (set deps t v),
        get-set deps t u v,
        get-set deps t t v,
        append_assoc (deps_at deps t) (alias_target aliases i ∷ []) rest,
      )

  deps_at-add_deps :
      (u : TypeId) (regs : List (TypeId × Registration)) (deps : Deps)
      → Distinct (Maps.keys regs)
      → deps_at (add_deps aliases regs deps) u
        ≡ deps_at deps u ++ targets_of aliases (Maps.lookup u regs)
  unfolding add_deps
  deps_at-add_deps u [] deps d = sym (append-nil (deps_at deps u))
  deps_at-add_deps u ((t, reg) ∷ regs) deps d =
      deps_at-add_deps u regs (add_ins aliases t reg.ctor.ins deps) d.1
      ∙ ground (
        arith,
        deps_at-add_ins t u reg.ctor.ins deps,
        contains-keys t regs,
        nat_beq_iff t u,
        append-nil (deps_at deps t ++ map (alias_target aliases) reg.ctor.ins),
      )

module _ (aliases : OrderedMap TypeId TypeId) (regs : OrderedMap TypeId Registration)
    (valid : IsValid regs) where
  pub deps_of-IsValid : IsValid (deps_of aliases regs)
  unfolding deps_of
  deps_of-IsValid = add_deps-IsValid aliases (all zero_registration regs) empty empty-IsValid

  pub deps_at-deps_of :
      (t : TypeId) → deps_at (deps_of aliases regs) t ≡ dependencies aliases regs t
  unfolding deps_of get
  deps_at-deps_of t =
      deps_at-add_deps aliases t (all zero_registration regs) empty
        (Distinct-all zero_registration regs valid)
      ∙ rw (← (get-all zero_registration regs t valid).0)

  -- What the range over `deps.All()` finds for a type.
  pub lookup-deps_of :
      (t : TypeId)
      → or_empty (Maps.lookup t (all [] (deps_of aliases regs))) ≡ dependencies aliases regs t
  lookup-deps_of t =
      rw (← (get-all [] (deps_of aliases regs) t deps_of-IsValid).0) (deps_at-deps_of t)
