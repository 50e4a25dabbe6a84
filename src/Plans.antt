-- ===== src/Plans.antt =====
-- Maintenance plans: `MaintenancePlanStore` of src/maintenance-plan-store.ts and its statements in
-- src/sqlite-store.ts.
pub mod Rows
pub mod Store
pub mod Service
pub mod Ops
pub mod Final
pub mod Replay
pub mod Accepted
mod Tests
