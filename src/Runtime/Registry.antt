-- ===== src/Runtime/Registry.antt =====
-- runtime/registry.go: functions and mixins by their ids.
mod Entries
unfoldable pub use Entries.*
pub mod Lookup
pub mod Listing
mod Tests
