-- ===== src/Runtime/Tasks.antt =====
-- The tasks of runtime/task_manager.go. A task runs in a goroutine of its own; what it does under the
-- manager's lock is one step, and steps of different goroutines come in any order.
mod Records
mod Cancel
mod Steps
unfoldable pub use Records.*
unfoldable pub use Cancel.*
unfoldable pub use Steps.*
pub mod Preserve
pub mod Invariant
pub mod Childless
pub mod Settled
pub mod Final
pub mod Visits
pub mod Reached
pub mod Descendants
