-- ===== src/Di/Resolve/Enter.antt =====
-- enterBuild and leaveBuild as a pair: what a push needs, and that the pop undoes it.
use gas.Prelude.{
  ℕ, ◌<◌, nat_eq, leb, ◌≡◌, refl, ap, none, some, List, [], ◌∷◌, ◌++◌, arith, nat_beq_iff, length,
  length-append, Bool-cases, Option-cases, inl, inr, ◌⊎◌,
}
use gas.Maps
use gas.Maps.Laws.{lookup-insert, lookup-delete}
use gas.Di.{TypeId, DiError, circular_dependency}
use gas.Di.Container.{Container}
use gas.Di.Guard.{stack_of, drop_last, cycle_in, enter_build, leave_build, max_resolve_depth}

drop_last-snoc : (stack : List TypeId) (t : TypeId) → drop_last (stack ++ t ∷ []) ≡ stack
unfolding drop_last
drop_last-snoc [] t = refl
drop_last-snoc (s ∷ []) t = refl
drop_last-snoc (s ∷ u ∷ stack) t = ap (λ l. s ∷ l) (drop_last-snoc (u ∷ stack) t)

-- leaveBuild after enterBuild restores the goroutine's stack.
pub stack-leave_build :
    (gid : ℕ) (c : Container) (stack : List TypeId) (t : TypeId)
    → stack_of gid c ≡ stack ++ t ∷ []
    → stack_of gid (leave_build gid c) ≡ stack
unfolding leave_build
stack-leave_build gid c [] t h = ground (arith, lookup-delete gid gid c.stacks, nat_beq_iff gid gid)
stack-leave_build gid c (s ∷ stack) t h = ground (
  arith,
  lookup-insert gid gid (drop_last (stack_of gid c)) c.stacks,
  nat_beq_iff gid gid,
  drop_last-snoc (s ∷ stack) t,
  length-append stack (t ∷ []),
)

abbrev pub pushed : ℕ → TypeId → Container → Container
pushed gid t c = record c { stacks = Maps.insert gid (stack_of gid c ++ t ∷ []) c.stacks }

-- enterBuild refuses and changes nothing, or pushes the type on a stack that has room and does not
-- hold it.
abbrev pub EnterCases : ℕ → TypeId → Container → Type 0
EnterCases gid t c =
    ((e : DiError) × (enter_build gid t c ≡ (some e, c)) × (e ≡ circular_dependency))
    ⊎ ((enter_build gid t c ≡ (none, pushed gid t c))
        × (length (stack_of gid c) < max_resolve_depth))

cycle_in_err :
    (stack : List TypeId) (t : TypeId) (e : DiError)
    → cycle_in stack t ≡ some e
    → e ≡ circular_dependency
unfolding cycle_in
cycle_in_err [] t e h = cc
cycle_in_err (s ∷ stack) t e h = ground (arith, h, cycle_in_err stack t e)

pub enter_cases : (gid : ℕ) (t : TypeId) (c : Container) → EnterCases gid t c
unfolding enter_build
enter_cases gid t c = elim (Option-cases (cycle_in (stack_of gid c) t)) [
  | inr (e, cyclic) ↦ inl (e, ground arith, cycle_in_err (stack_of gid c) t e cyclic)
  | inl fresh ↦ elim (Bool-cases (leb max_resolve_depth (length (stack_of gid c)))) [
    | inl deep ↦ inl (circular_dependency, ground arith, refl)
    | inr room ↦ inr (ground arith, ground arith)
  ]
]
