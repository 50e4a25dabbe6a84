-- ===== src/Loadouts.antt =====
-- Agent loadouts: `LoadoutService` of src/loadouts/service.ts and its statements in
-- src/sqlite-store.ts.
pub mod Rows
pub mod Store
pub mod Precedence
pub mod Service
pub mod Update
pub mod Bindings
mod Tests
