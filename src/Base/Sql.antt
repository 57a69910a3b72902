-- ===== src/Base/Sql.antt =====
-- database/sql as the program uses it: statements that may fail, and transactions that roll back.
-- The environment's choice of failures is a list that each statement takes one entry from.
mod Monad
pub mod Laws
pub mod Outcomes
unfoldable pub use Monad.*
