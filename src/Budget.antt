-- ===== src/Budget.antt =====
-- The budget governor: src/budget-governor.ts.
pub mod Rows
pub mod Cleanup
pub mod Evaluate
pub mod Within
mod Tests
