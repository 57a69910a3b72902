-- ===== src/Tools.antt =====
-- The tools that the program gives to a model: internal/agentloop/tools.
pub mod Truncate
pub mod Lines
pub mod Head
pub mod Bytes
pub mod Tail
pub mod Suffix
pub mod Buffers
pub mod Args
pub mod Paths
pub mod Files
pub mod Edit
pub mod Read
pub mod Binary
pub mod Commands
mod Tests
