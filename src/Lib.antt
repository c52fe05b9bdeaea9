-- ===== src/Lib.antt =====
-- Gas, a Go framework for services: a model of its core and of several of its modules, with proofs.
--
-- The core builds the services of a program by dependency injection (service_registry.go,
-- di_guard.go), runs them in a Worker (worker.go, service_management.go) and lets them talk over an
-- event bus (eventbus.go). Registrations, instances and aliases are kept in insertion-ordered maps
-- (internal/ordered_map.go). The modules beside it are services of their own: the model has the
-- in-memory cache, single-use tokens, sessions, API keys and the middleware that asks them, database
-- transactions and migrations, the checks and byte ranges of storage, a merge of configuration
-- trees and the parser of dotenv files.
--
-- Files and code:
--   Prelude, Maps: shared names, lists over native numbers, signed numbers; Go's built-in map as a
--     list of entries with distinct keys, whose order stands for the order of iteration.
--   OrderedMap: internal/ordered_map.go. `set`, `get`, `has`, `remove`, `len`, `all` are Set, Get,
--     Has, Remove, Len and All. Refinement compares it with the list of entries that All yields.
--   EventBus: eventbus.go. Subscribe, SubscribeWithOwner, RemoveByService and Emit; a handler is a
--     number, and what it does is a parameter. Emit's goroutines run one after the other, in the order
--     in which they are started.
--   Di: service_registry.go and di_errors.go. Di/Container is the registration with its panics as
--     results, and the checks of BuildAll on lifetimes and aliases; Di/TopoSort is topoSort; Di/Guard
--     is di_guard.go; Di/Resolve is resolveType and what it calls, as one goroutine runs them.
--     Reflection is the record Reflect.
--   Worker: the active services, their collection in InitServices, CloseService, RestartService and
--     Shutdown, over the EventBus and the Container above. The code of services and of subscribers is
--     a parameter over the bus and the rest of the world.
--   MemoryCache: cache/memory/service.go, one function per lock section, with the times as arguments.
--   Token: auth/token/token.go over the queries of auth/token/db/store.go, which are a record with the
--     laws of the schema, in which a column keeps a time up to a precision.
--   Transaction: database/tx.go over a driver, a record with the laws that database/sql and pgx
--     document.
--   ByteRange: storage/dir/range.go over bytes, with int64 saturation.
--   ConfigMap: MergeWithoutOverride of config/internal/maputils/merge.go on trees.
--   Migrate: migrate/manager.go, migrate/service.go, migrate/store.go and migrate/clear_dirty.go. The
--     registry, and in Migrate/Run RunPending, Down, CheckReady and ClearDirty over a record of the
--     queries and of the transactions of database/sql; Migrate/Tracking holds the laws of that record,
--     in which the SQL of a migration is safe where it leaves the tracking table alone and does not
--     end the transaction.
--   Auth: auth/auth.go, auth/middleware.go and principal.go; Auth/Session and Auth/ApiKey are
--     auth/session/session.go and auth/apikey/apikey.go with their stores, over a record of the
--     queries whose laws (Auth/Session/Table, Auth/ApiKey/Keys) are those of the schema.
--   Dotenv: config/internal/dotenv/parser.go over the characters of the file; its lines are split as
--     bufio.Scanner splits them.
--   Storage: storage/internal/util.go. Storage/Length is CheckLength and its reader, over any body.
--
-- Fuel and bounds: topoSort's loop over its queue runs on as much fuel as there are registrations,
-- each of which enters the queue at most once. resolveType runs on 257 of fuel: enterBuild refuses a
-- build below 256 others, so that a resolution nests at most that deep. The theorems on both say that
-- the model never ends for lack of fuel. The probe of lengthReader has the 100 rounds of the code. All
-- other functions recur on their arguments. Numbers of type int are natural numbers without a bound
-- where the code only counts, and a time plus a duration is taken not to overflow; the int64 of a byte
-- range is bounded by the largest int64 as in the code.
--
-- Not modelled: HTTP routing and App (router, handlers, request scopes), input and output (logging,
-- S3, SQS, SES, Valkey, the file system), generated SQL, configuration binding by reflection, the texts
-- of errors, and the concurrency of two resolutions in one container, beyond what the guard's tables
-- record. The other map utilities of the configuration, the template stores, JWT, the scopes of the
-- container and Worker.Start have no model yet.
pub mod Prelude
pub mod Maps
pub mod OrderedMap
pub mod EventBus
pub mod Di
pub mod MemoryCache
pub mod ByteRange
pub mod Worker
pub mod Token
pub mod Transaction
pub mod ConfigMap
pub mod Migrate
pub mod Auth
pub mod Dotenv
pub mod Storage
