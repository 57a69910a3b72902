-- ===== src/Conversation/Tree.antt =====
-- The tree of nodes.
pub mod Sound
pub mod History
pub mod Insert
pub mod Load
pub mod Appending
