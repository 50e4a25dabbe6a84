-- ===== src/Lib.antt =====
-- AgentRecall keeps the memory of coding agents in one SQLite database. This library models the parts
-- of its TypeScript code that decide what is stored, and proves what they guarantee.
--
-- The parts and their files:
-- Common/*: shared notation; SQL tables as lists of rows with SELECT, UPDATE, INSERT and ORDER BY
-- (Common.Table); code that reads and writes a state and may throw (Common.Effect).
-- Jobs/*: the durable derivation jobs. Jobs.Rows and Jobs.Store and Jobs.Runs are the row types and
-- the statements of src/sqlite-store.ts on derivation_jobs, derivation_runs and derivation_outputs;
-- Jobs.Service and Jobs.Endings are DerivationJobStore of src/jobs/service.ts (`enqueue`, `reap`,
-- `claim`, `listClaimable`, `startStage`, `finishStage`, `complete`, `fail`, `requestCancel`,
-- `markCancelled`, `inspect`), with the names in snake case. Jobs.Ops gathers the operations of all
-- workers into schedules, and Jobs.Moves takes each apart into single statements.
--
-- Loadouts/*: agent loadouts. Loadouts.Store is `resolveLoadout` of src/sqlite-store.ts, which picks a
-- binding through four queries; Loadouts.Service and Loadouts.Bindings are LoadoutService of
-- src/loadouts/service.ts (`create`, `updateRules`, `bind`, `unbind`, `resolve`) with the store's
-- statements that it calls.
-- Plans/*: maintenance plans. Plans.Store is the statements of src/sqlite-store.ts on
-- maintenance_plans and maintenance_plan_items, Plans.Service is MaintenancePlanStore of
-- src/maintenance-plan-store.ts (`create`, `get`, `validate`, `markApplying`, `markCompleted`,
-- `markRejected`). What JSON.parse, JSON.stringify, SHA-256 and the comparisons of strings do is a
-- record of functions, Plans.Rows.Runtime.
-- Idempotency/*: `reserveIdempotency`, `completeIdempotency`, `runWithIdempotentMutation` and
-- `tryReplayOnly` of src/services/idempotency.ts, and `transaction` of src/sqlite-store.ts, over a
-- callback that works on all other tables.
--
-- Budget/*: src/budget-governor.ts. Budget.Evaluate is `evaluateBudget` for one write, Budget.Cleanup is
-- `rankCleanupCandidates`; Budget.Within puts writes one after another.
-- Scopes/*: src/scope-resolver.ts, which decides which project a call is about. Scopes.Names is the
-- texts of project ids, Scopes.Rows the tables project_identities and project_aliases_new with their
-- statements, Scopes.Inputs the types of calls and answers, Scopes.Resolver is
-- `ProjectIdentityResolver.resolve` with `resolveMemoryScopeWithStore`.
-- Sessions/*: `SessionService` of src/sessions/service.ts. Sessions.Plan is `planBundle`,
-- Sessions.Events stores one event, Sessions.Ingest is `ingest` (the statements are in Sessions.Rows),
-- Sessions.Readers is `inspect`, `getEventBody` and `forget`.
-- Assets/*: `AssetService` of src/assets/service.ts. Assets.Rows is the statements on assets,
-- asset_versions and memory_ref_bindings, Assets.Service is `createMemoryRef`, `createSkillVersion`,
-- `appendSkillVersion`, `setLifecycle` and `history`.
-- Memories/*: MemoryWriteService of src/services/memory-write-service.ts. Memories.Rows and
-- Memories.Store are the row types and the statements of src/sqlite-store.ts on memory_entries,
-- memory_revisions, memory_fts, audit_events and project_scopes; Memories.Inputs is what callers give
-- and get; Memories.Context is what the methods share and Memories.Room the budget check, with the
-- helpers of src/services/memory-service-helpers.ts; Memories.Update is `updateMemory`,
-- Memories.Forget is `forgetMemory`; Memories.Prepare is `resolveRememberInput`,
-- `configureProjectBudget` and `commitPreparedRemember`; Memories.Remember is `remember`;
-- Memories.Replace is `supersedeMemory` and `mergeMemories` as one function with a parameter for where
-- they differ. Memories.Moves takes each method apart into the writes it makes; Memories.History puts
-- calls one after another and says what an accepted call leaves behind. The input validator, the
-- capability store and `ORDER BY updated_at DESC LIMIT n` are parameters. A revision's snapshot is the
-- entry itself, a call reads the clock once, and an entry has no map of the last accesses of each
-- actor.
-- Jobs.Runner is `runOnce` of src/jobs/runner.ts, the worker loop over the job store.
--
-- The parts meet in the database: each works on its own tables. The job runner calls the methods of
-- the job store, between schedules of operations that others run meanwhile; `ingest` asks the scope
-- resolver, on its tables, whether a project is registered. A write of a memory asks the scope
-- resolver for the project and the budget governor for the room, and makes its writes in the
-- transaction of the idempotent mutations. Only the worker loop of Jobs.Runner runs on fuel, which
-- bounds its passes: one pass is enough where it does not poll, and where it does, as many as it takes
-- until the abort signal is seen. Every other loop is a recursion on a list or on a bound that the
-- code itself has.
--
-- A SQL UPDATE is a function on every row that meets its WHERE; RETURNING gives the first such row;
-- `changes` counts them. Rows stand in rowid order, which also orders ties of an ORDER BY. An INSERT
-- that breaks a PRIMARY KEY, UNIQUE or FOREIGN KEY constraint throws and writes nothing. Times are
-- natural numbers of milliseconds; ISO timestamps, which the code compares as strings of one fixed
-- format, are such numbers too, except in Budget, Scopes and Memories, where they stay texts. NULL and
-- undefined are `none`. Minted ids, the clock and serialised JSON texts are inputs. One statement is
-- one atomic step: concurrency between workers and processes is an arbitrary order of operations.
--
-- Not modelled: the MCP server and its tools, the command line, HTTP, the web app, import and export
-- with `projectBatchBudget`, migrations, the reading, ranking and maintenance of memories, the metadata of audit events, the
-- warnings and the usage in the answers of writes, and everything that matches free text with regular
-- expressions, except project ids. The secret detector, text similarity and error redactor, which work
-- on free text or floating-point scores, are parameters; so are the file system, git, SHA-256 and
-- JSON.
pub mod Assets
pub mod Budget
pub mod Common
pub mod Idempotency
pub mod Jobs
pub mod Loadouts
pub mod Memories
pub mod Plans
pub mod Scopes
pub mod Sessions
