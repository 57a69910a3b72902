-- ===== src/Gateway/Polling.antt =====
-- gateway.outbox_since and gateway.outbox_max_id of hub/util/gateway/functions.go: a client reads
-- the outbox by asking for what is newer than the largest id that it has seen.
mod Handler
pub mod Complete
unfoldable pub use Handler.*
