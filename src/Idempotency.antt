-- ===== src/Idempotency.antt =====
-- Idempotent mutations: src/services/idempotency.ts and its statements in src/sqlite-store.ts.
pub mod Rows
pub mod Service
pub mod Probe
pub mod Replay
pub mod Atomic
mod Tests
