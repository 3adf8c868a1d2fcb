-- ===== src/Store.antt =====
-- The run and event tables of the in-memory store (src/store).
pub mod Schemas
pub mod Memory
pub mod Laws
pub mod Commits
pub mod Calls
pub mod Samples
mod Tests
pub mod Conversations
