-- ===== src/Scopes.antt =====
-- src/scope-resolver.ts: which project a call is about.
pub mod Names
pub mod Rows
pub mod Inputs
pub mod Resolver
mod Tests
