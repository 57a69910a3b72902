-- ===== src/Base/Stamp.antt =====
-- Times as the program stores them: time.RFC3339Nano text, which SQLite compares byte by byte.
-- The fixed-width part up to the seconds is kept as the number of seconds.
mod Format
pub mod Order
pub mod Parse
unfoldable pub use Format.*
