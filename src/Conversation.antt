-- ===== src/Conversation.antt =====
-- conversation/db: the tree of messages, the named refs into it and their leases.
pub mod Tables
pub mod Nodes
pub mod Refs
pub mod Leased
pub mod Tree
pub mod Effects
pub mod Moves
pub mod Invariant
pub mod History
pub mod Exclusion
pub mod Standing
pub mod Cas
pub mod Executor
mod Tests
