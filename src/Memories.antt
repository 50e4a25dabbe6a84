-- ===== src/Memories.antt =====
-- The write path of memories: src/services/memory-write-service.ts.
pub mod Rows
pub mod Inputs
pub mod Store
pub mod Context
pub mod Room
pub mod Update
pub mod Forget
pub mod Prepare
pub mod Remember
pub mod Replace
pub mod Moves
pub mod History
mod Tests
