-- ===== src/Migrate.antt =====
-- migrate/manager.go, migrate/service.go, migrate/store.go and migrate/clear_dirty.go: the migration
-- manager. A map's list is in the order of Go's iteration, whichever it is.
pub mod Run
pub mod Registry
pub mod Versions
pub mod Agreement
pub mod Tracking
pub mod Apply
pub mod InForce
pub mod Rows
pub mod Pending
pub mod Start
pub mod RunPending
pub mod Ready
pub mod Down
pub mod Reverting
pub mod Clearing
pub mod Tests
use gas.Prelude.{
  ℕ, zero, suc, ◌-◌, String, string_eq, string_order, ◌==◌, Bool, true, false, not, ◌&&◌, ◌||◌,
  Option, none, some, List, [], ◌∷◌, ◌++◌, if◌then◌else◌, map, length, take, contains, any, ◌≡◌,
  ◌⊎◌, ℤ, pos_part, ltb, leb, Ascends, sort_by, ◌≢◌, find_by,
}
use gas.Maps
use gas.Maps.{Map}

-- gas.Migration, with its service's name
pub record Migration : Type 0 where
  pub version : String
  pub service : String
  pub description : String
  pub up : String
  pub down : String

abbrev pub Registered : Type 0
Registered = Map String (List Migration)

abbrev pub or_nil : Option (List Migration) → List Migration
or_nil none = []
or_nil (some ms) = ms

-- Register: the migration takes the name of the service.
unfoldable pub register : String → Migration → Registered → Registered
register name m regs =
    Maps.insert name (or_nil (Maps.lookup name regs) ++ record m { service = name } ∷ []) regs

-- RegisterSlice
unfoldable pub register_slice : String → List Migration → Registered → Registered
unfolding register
register_slice name [] regs = regs
register_slice name (m ∷ ms) regs = register_slice name ms (register name m regs)

pub data MigrateError : Type 0 where
  closed not_initialized query_failed : MigrateError
  dirty : List String → MigrateError
  duplicate_version : String → MigrateError
  not_registered : String → MigrateError
  not_dirty : String → MigrateError
  pending_migrations : ℕ → MigrateError
  begin_failed up_failed record_failed commit_failed : String → MigrateError
  down_failed remove_failed : String → MigrateError

pub data Result {ℓ} (A : Type ℓ) : Type ℓ where
  ok : A → Result A
  err : MigrateError → Result A

abbrev pub and_then {ℓ κ} : {A : Type ℓ} {B : Type κ} → Result A → (A → Result B) → Result B
and_then (ok a) f = f a
and_then (err e) f = err e

-- Does a version that is registered again bring the same migration, of the same service?
abbrev pub is_same : Migration → Migration → Bool
is_same a b =
    a.service == b.service && (a.description == b.description && (a.up == b.up && a.down == b.down))

-- One round of the inner loop of registeredMigrations
unfoldable pub add_version : Migration → Map String Migration → Result (Map String Migration)
add_version m by_version = elim (Maps.lookup m.version by_version) [
  | none ↦ ok (Maps.insert m.version m by_version)
  | some existing ↦ if is_same existing m then ok by_version else err (duplicate_version m.version)
]

unfoldable pub add_versions : List Migration → Map String Migration → Result (Map String Migration)
unfolding add_version
add_versions [] by_version = ok by_version
add_versions (m ∷ ms) by_version = and_then (add_version m by_version) (add_versions ms)

-- The migrations of the services, in the order of their names
unfoldable pub by_name : List String → Registered → List Migration
by_name [] regs = []
by_name (name ∷ names) regs = or_nil (Maps.lookup name regs) ++ by_name names regs

abbrev pub values : Map String Migration → List Migration
values [] = []
values ((v, m) ∷ rest) = m ∷ values rest

unfoldable pub registered_migrations : Registered → Result (List Migration)
unfolding by_name add_versions
registered_migrations regs =
    and_then (add_versions (by_name (sort_by (λ name. name) (Maps.keys regs)) regs) [])
      λ by_version. ok (sort_by (λ m. m.version) (values by_version))
