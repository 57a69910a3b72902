-- ===== src/Gateway/Tests.antt =====
-- Runs of the gateway's operations, and its theorems at concrete data.
mod Data
mod Queue
mod Pumping
mod Polls
mod Receiving
