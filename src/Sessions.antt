-- ===== src/Sessions.antt =====
-- src/sessions/service.ts: captured sessions as evidence.
pub mod Rows
pub mod Plan
pub mod Events
pub mod Ingest
pub mod Readers
mod Tests
