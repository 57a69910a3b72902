-- ===== src/Gateway/History.antt =====
-- Histories: the operations of any number of receivers, pumps and heartbeats on one database, in
-- the order in which they run. Each is one statement or one transaction.
mod Step
pub mod Preserve
pub mod OneReply
pub mod Fencing
pub mod Reclaim
unfoldable pub use Step.*
