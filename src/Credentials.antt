-- ===== src/Credentials.antt =====
-- Which models there are, and where their credentials come from: internal/agentloop/model and
-- internal/keys.
pub mod Keys
pub mod Agreement
pub mod Models
mod Tests
