-- ===== src/Migrate/Tests.antt =====
-- A database of two tables, the committed one and the transaction's, and the theorems at it.
use mathlib.Core.List.{reverse}
use gas.Prelude.{
  Bool-cases, subst, String, string_eq, string_order, ◌==◌, Bool, true, false, not, ◌&&◌, Option,
  none, some, List, [], ◌∷◌, ◌++◌, if◌then◌else◌, contains, Distinct, ◌≡◌, ◌≢◌, inl, inr, refl, sym,
  ap, ◌∙◌, arith, pos, take, All, Ascends,
}
use gas.Maps
use gas.Maps.{Map}
use gas.Maps.Laws.{lookup-insert, lookup-delete, contains-keys}
use gas.Migrate.{Migration, Registered, register_slice, ok, registered_migrations}
use gas.Migrate.Run.{
  Row, Database, Service, versions, run_pending, down, check_ready, clear_dirty, usable,
}
use gas.Migrate.Registry.{version, find}
use gas.Migrate.Agreement.{registered_migrations-listed, registered_migrations-order}
use gas.Migrate.Pending.{After}
use gas.Migrate.Start.{Started, reads}
use gas.Migrate.RunPending.{run_pending-After, IsDone}
use gas.Migrate.Ready.{run_pending-once, dirty_blocks}
use gas.Migrate.Reverting.{down-Reverted, Reverted}
use gas.Migrate.Clearing.{clear_dirty-Cleared, Cleared}
use gas.Migrate.Tracking.{Tracks, is_row, is_dirty_row}

pub record Tables : Type 0 where
  pub table : Map String Bool
  pub working : Map String Bool
  pub log : List String
  pub working_log : List String

abbrev is_marked : String → Map String Bool → Bool
is_marked v t = is_dirty_row (Maps.lookup v t)

abbrev listed : List String → Map String Bool → List Row
listed [] t = []
listed (v ∷ vs) t = record { version = v; is_dirty = is_marked v t } ∷ listed vs t

abbrev marked : List String → Map String Bool → List Row
marked [] t = []
marked (v ∷ vs) t =
    if is_marked v t then record { version = v; is_dirty = true } ∷ marked vs t else marked vs t

contains-listed :
    (vs : List String) (t : Map String Bool) (k : String)
    → contains (versions (listed vs t)) k ≡ contains vs k
contains-listed [] t k = refl
contains-listed (v ∷ vs) t k = ground (arith, contains-listed vs t k)

contains-marked :
    (vs : List String) (t : Map String Bool) (k : String)
    → contains (versions (marked vs t)) k ≡ (contains vs k && is_marked k t)
contains-marked [] t k = refl
contains-marked (v ∷ vs) t k =
    ground (arith, contains-marked vs t k, string_eq.eq_iff v k, ap (λ x. is_marked x t))

is_marked-has : (k : String) (t : Map String Bool) → (Maps.has k t && is_marked k t) ≡ is_marked k t
is_marked-has k t = ground (arith, Maps.lookup k t)

some_eq : {rows others : List Row} → some rows ≡ some others → rows ≡ others
some_eq h = cc

is_row-is_some : (r : Option Bool) → Maps.is_some r ≡ is_row r
is_row-is_some none = refl
is_row-is_some (some b) = refl

-- SQL that is "bad" fails.
abbrev database : Database Tables
database = record {
  get_applied = λ s. (some (listed (Maps.keys s.table) s.table), s);
  get_dirty = λ s. (some (marked (Maps.keys s.table) s.table), s);
  begin = λ s. (true, record s { working = s.table; working_log = s.log });
  exec = λ sql s. (
    not (sql == "bad"),
    record s {
      working_log = if not (sql == "bad") then s.working_log ++ sql ∷ [] else s.working_log;
    },
  );
  mark_applied = λ m s. (true, record s { working = Maps.insert m.version false s.working });
  remove = λ v s. (true, record s { working = Maps.delete v s.working });
  commit = λ s. (true, record s { table = s.working; log = s.working_log });
  rollback = λ s. record s { working = s.table; working_log = s.log };
  mark_dirty = λ m s. (true, record s { table = Maps.insert m.version true s.table });
}

abbrev laws : Tracks database
laws = record {
  row = λ s k. Maps.lookup k s.table;
  staged = λ s k. Maps.lookup k s.working;
  ran = λ s. s.log;
  staged_ran = λ s. s.working_log;
  is_open = λ s. true;
  is_safe = λ sql. true;
  begin_kept = λ s. ((λ k. refl), refl);
  begin_ok = λ s h. ((λ k. refl), refl, refl);
  exec_kept = λ sql s safe o. ((λ k. refl), refl);
  exec_ok = λ sql s safe o h. ((λ k. refl), ground (arith, h), refl);
  mark_applied_kept = λ m s o. ((λ k. refl), refl);
  mark_applied_ok = λ m s o h. ((λ k. lookup-insert m.version k false s.working), refl, refl);
  remove_kept = λ v s o. ((λ k. refl), refl);
  remove_ok = λ v s o h. ((λ k. lookup-delete v k s.working), refl, refl);
  commit_ok = λ s o h. ((λ k. refl), refl);
  commit_failed = λ s o. inr ((λ k. refl), refl);
  rollback_kept = λ s. ((λ k. refl), refl);
  mark_dirty_ran = λ m s. refl;
  mark_dirty_ok = λ m s k h. lookup-insert m.version k true s.table;
  mark_dirty_failed = λ m s k h. cc;
  get_applied_row = λ s k. refl;
  get_dirty_row = λ s k. refl;
  get_applied_rows = λ s rows k h.
      ap (λ r. contains (versions r) k) (some_eq (sym h))
      ∙ contains-listed (Maps.keys s.table) s.table k
      ∙ contains-keys k s.table
      ∙ is_row-is_some (Maps.lookup k s.table);
  get_dirty_rows = λ s rows k h.
      ap (λ r. contains (versions r) k) (some_eq (sym h))
      ∙ contains-marked (Maps.keys s.table) s.table k
      ∙ ap (λ b. b && is_marked k s.table) (contains-keys k s.table)
      ∙ is_marked-has k s.table;
}

abbrev users : Migration
users = record {
  version = "001";
  service = "accounts";
  description = "users";
  up = "create users";
  down = "drop users";
}

abbrev orders : Migration
orders = record {
  version = "002";
  service = "shop";
  description = "orders";
  up = "bad";
  down = "drop orders";
}

abbrev regs : Registered
regs = register_slice "shop" (orders ∷ []) (register_slice "accounts" (users ∷ users ∷ []) [])

abbrev swapped : Registered
swapped = register_slice "accounts" (users ∷ users ∷ []) (register_slice "shop" (orders ∷ []) [])

merged : registered_migrations regs ≡ ok (users ∷ orders ∷ [])
unfolding registered_migrations register_slice
merged = refl

abbrev service : Service
service = record { registered = regs; is_closed = false; is_initialized = true }

abbrev accounts_only : Service
accounts_only = record {
  registered = register_slice "accounts" (users ∷ []) [];
  is_closed = false;
  is_initialized = true;
}

abbrev fresh : Tables
fresh = record { table = []; working = []; log = []; working_log = [] }

abbrev with_orders : Tables
with_orders = record {
  table = ("001", false) ∷ ("002", true) ∷ [];
  working = [];
  log = [];
  working_log = [];
}

stops_dirty : (run_pending database service fresh).1.table ≡ ("001", false) ∷ ("002", true) ∷ []
unfolding run_pending registered_migrations register_slice
stops_dirty = refl

regs-Distinct : Distinct (Maps.keys regs)
unfolding register_slice
regs-Distinct = (refl, (refl, tt))

swapped-Distinct : Distinct (Maps.keys swapped)
unfolding register_slice
swapped-Distinct = (refl, (refl, tt))

regs-swapped : (k : String) → Maps.lookup k regs ≡ Maps.lookup k swapped
unfolding register_slice
regs-swapped k = elim (Bool-cases ("accounts" == k)) [
  | inl here ↦
      subst (λ j. Maps.lookup j regs ≡ Maps.lookup j swapped)
        ((string_eq.eq_iff "accounts" k).0 here) refl
  | inr apart ↦ ground (arith, apart)
]

registered_migrations-listed_example :
    Ascends version (users ∷ orders ∷ [])
    × ((name : String) (ms : List Migration)
        → Maps.lookup name regs ≡ some ms
        → All (λ m. find m.version (users ∷ orders ∷ []) ≡ some m) ms)
    × ((v : String) (m : Migration)
        → find v (users ∷ orders ∷ []) ≡ some m
        → (name : String) × (ms : List Migration) × (Maps.lookup name regs ≡ some ms)
          × (find v ms ≡ some m))
registered_migrations-listed_example =
    registered_migrations-listed regs (users ∷ orders ∷ []) regs-Distinct merged

registered_migrations-order_example : registered_migrations regs ≡ registered_migrations swapped
registered_migrations-order_example =
    registered_migrations-order regs swapped regs-Distinct swapped-Distinct regs-swapped

fresh-Started : Started database service fresh []
unfolding usable
fresh-Started = record { is_usable = refl; none_dirty = refl; has_rows = refl }

run_pending-After_example :
    After database laws []
      (users ∷ orders ∷ [])
      (reads database fresh)
      (run_pending database service fresh)
run_pending-After_example =
    run_pending-After database laws service fresh [] (users ∷ orders ∷ []) fresh-Started merged
      (refl, (refl, tt))

abbrev applied : Tables
applied = (run_pending database accounts_only fresh).1

runs_clean :
    ((run_pending database accounts_only fresh).0 ≡ none) × (applied.table ≡ ("001", false) ∷ [])
unfolding run_pending registered_migrations register_slice
runs_clean = (refl, refl)

no_dirty_applied : (database.get_dirty applied).0 ≡ some []
unfolding run_pending registered_migrations register_slice
no_dirty_applied = refl

rows_applied :
    (database.get_applied (database.get_dirty applied).1).0
    ≡ some (record { version = "001"; is_dirty = false } ∷ [])
unfolding run_pending registered_migrations register_slice
rows_applied = refl

safe_all : (all : List Migration) → All (λ m. laws.is_safe m.up ≡ true) all
safe_all [] = tt
safe_all (m ∷ ms) = (refl, safe_all ms)

run_pending-once_example :
    IsDone database laws accounts_only applied
    × (run_pending database accounts_only applied ≡ (none, reads database applied))
    × (check_ready database accounts_only applied ≡ (none, reads database applied))
run_pending-once_example =
    run_pending-once database laws accounts_only fresh []
      (record { version = "001"; is_dirty = false } ∷ []) (λ all e. safe_all all) runs_clean.0
      no_dirty_applied rows_applied

dirty_blocks_example :
    (((run_pending database service with_orders).0 ≢ none)
      × ((k : String)
          → laws.row (run_pending database service with_orders).1 k ≡ laws.row with_orders k))
    × (((down database service (pos 1) with_orders).0 ≢ none)
        × ((k : String)
            → laws.row (down database service (pos 1) with_orders).1 k ≡ laws.row with_orders k))
    × (((check_ready database service with_orders).0 ≢ none)
        × ((k : String)
            → laws.row (check_ready database service with_orders).1 k ≡ laws.row with_orders k))
dirty_blocks_example = dirty_blocks database laws service (pos 1) with_orders "002" refl

abbrev both : List Row
both =
    record { version = "001"; is_dirty = false } ∷ record { version = "002"; is_dirty = false } ∷ []

abbrev all_applied : Tables
all_applied = record {
  table = ("001", false) ∷ ("002", false) ∷ [];
  working = [];
  log = [];
  working_log = [];
}

all_applied-Started : Started database service all_applied both
unfolding usable
all_applied-Started = record { is_usable = refl; none_dirty = refl; has_rows = refl }

downs_last : (down database service (pos 1) all_applied).1.table ≡ ("001", false) ∷ []
unfolding down registered_migrations register_slice
downs_last = refl

down-Reverted_example :
    Reverted database laws
      (users ∷ orders ∷ [])
      (take 1 (reverse both))
      (reads database all_applied)
      (down database service (pos 1) all_applied)
down-Reverted_example =
    down-Reverted database laws (users ∷ orders ∷ []) service (pos 1) all_applied both
      all_applied-Started merged (refl, (refl, tt)) (refl, (refl, tt))

clears : (clear_dirty database service "002" with_orders).1.table ≡ ("001", false) ∷ []
unfolding clear_dirty
clears = refl

clear_dirty-Cleared_example :
    Cleared database laws "002" with_orders (clear_dirty database service "002" with_orders)
clear_dirty-Cleared_example = clear_dirty-Cleared database laws service "002" with_orders
