-- ===== src/Reliable.antt =====
-- internal/reliable/job_completer.go: claim one job, handle it, and settle it.
mod Completer
unfoldable pub use Completer.*
pub mod Settling
mod Tests
