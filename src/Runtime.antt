-- ===== src/Runtime.antt =====
-- The runtime: its registry of functions and its tasks.
pub mod Registry
pub mod Tasks
pub mod Log
pub mod Pumps
pub mod Startup
mod Tests
