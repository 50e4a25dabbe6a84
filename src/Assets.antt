-- ===== src/Assets.antt =====
-- The typed asset registry: src/assets/service.ts with its statements in src/sqlite-store.ts.
pub mod Rows
pub mod Service
pub mod Invariant
mod Tests
