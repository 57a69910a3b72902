-- ===== src/Gateway.antt =====
-- hub/util/gateway: the persistent message queue of a chat session, its outbox, and the pump.
pub mod Tables
pub mod Inbound
pub mod Outbox
pub mod Complete
pub mod Invariant
pub mod Closing
pub mod Claiming
pub mod Due
mod Tests
pub mod Inputs
pub mod Recv
pub mod Slash
pub mod Polling
pub mod Retry
pub mod Pump
pub mod History
