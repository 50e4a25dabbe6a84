-- ===== src/Jobs.antt =====
-- The durable derivation jobs: src/sqlite-store.ts (the tables and their statements) and
-- src/jobs/service.ts (`DerivationJobStore`).
pub mod Rows
pub mod Store
pub mod Runs
pub mod Service
pub mod Endings
pub mod Ops
pub mod Moves
pub mod History
pub mod Invariant
pub mod Lease
pub mod Claim
pub mod Replay
pub mod Stages
pub mod Runner
mod Tests
