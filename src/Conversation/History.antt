-- ===== src/Conversation/History.antt =====
-- Histories of calls on the conversation database.
mod Step
pub mod Preserve
pub mod Chains
unfoldable pub use Step.*
