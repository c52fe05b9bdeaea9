-- ===== src/Di/Guard.antt =====
-- di_guard.go: the stack of constructors that each goroutine runs, for finding cycles, and the
-- builds that goroutines wait for, for finding deadlocks.
use gas.Prelude.{
  ℕ, zero, suc, nat_eq, ◌==◌, leb, Bool, true, false, Option, none, some, List, [], ◌∷◌, ◌++◌,
  if◌then◌else◌, length,
}
use gas.Maps
use gas.Maps.{Map}
use gas.Di.{TypeId, DiError, circular_dependency}
use gas.Di.Container.{Container}

-- maxResolveDepth
abbrev pub max_resolve_depth : ℕ
max_resolve_depth = 256

abbrev pub or_nil : Option (List TypeId) → List TypeId
or_nil none = []
or_nil (some stack) = stack

abbrev pub stack_of : ℕ → Container → List TypeId
stack_of gid c = or_nil (Maps.lookup gid c.stacks)

-- cycleIn: is there an error?
unfoldable pub cycle_in : List TypeId → TypeId → Option DiError
cycle_in [] t = none
cycle_in (s ∷ stack) t = if s == t then some circular_dependency else cycle_in stack t

-- `stack[:len(stack)-1]`
unfoldable pub drop_last : List TypeId → List TypeId
drop_last [] = []
drop_last (t ∷ []) = []
drop_last (t ∷ u ∷ ts) = t ∷ drop_last (u ∷ ts)

-- enterBuild, on the goroutine `gid`: an error, or the container with `t` on the stack.
unfoldable pub enter_build : ℕ → TypeId → Container → Option DiError × Container
unfolding cycle_in
enter_build gid t c =
    let stack = stack_of gid c in
    elim (cycle_in stack t) [
      | some e ↦ (some e, c)
      | none ↦
          if leb max_resolve_depth (length stack)
          then (some circular_dependency, c)
          else (none, record c { stacks = Maps.insert gid (stack ++ t ∷ []) c.stacks })
    ]

unfoldable pub leave_build : ℕ → Container → Container
unfolding drop_last
leave_build gid c =
    let stack = stack_of gid c in
    record c {
      stacks =
          if leb (length stack) 1
          then Maps.delete gid c.stacks
          else Maps.insert gid (drop_last stack) c.stacks;
    }

-- waitsOn, on the goroutine `b` that runs the build: `rounds` counts the range of the loop.
unfoldable pub waits_rounds : ℕ → Map ℕ ℕ → ℕ → ℕ → Bool
waits_rounds zero waiting b gid = false
waits_rounds (suc rounds) waiting b gid = if b == gid then true else elim (Maps.lookup b waiting) [
  | none ↦ false
  | some next ↦ waits_rounds rounds waiting next gid
]

unfoldable pub waits_on : Container → ℕ → ℕ → Bool
unfolding waits_rounds
waits_on c b gid = waits_rounds (suc (length c.waiting)) c.waiting b gid
