-- ===== src/Gateway/Pump.antt =====
-- gateway.pump of hub/util/gateway/functions.go: the completer of inbound messages and its loop.
mod Job
mod Loop
pub mod Outcome
pub mod Attempts
unfoldable pub use Job.*
unfoldable pub use Loop.*
