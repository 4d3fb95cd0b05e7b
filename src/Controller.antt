-- ===== src/Controller.antt =====
-- internal/controller: the conditions and the reconciler.
mod Conditions
mod Schedule
mod Requeue
mod Reconcile
unfoldable pub use Conditions.*
unfoldable pub use Schedule.*
unfoldable pub use Requeue.*
unfoldable pub use Reconcile.*
pub mod Delay
pub mod Freed
pub mod Metered
pub mod Untouched
pub mod Documented
pub mod Counted
pub mod Polling
pub mod Passing
pub mod Following
pub mod Watching
pub mod Completing
pub mod Completed
pub mod Started
pub mod Unsupported
pub mod Quiet
pub mod Stages
pub mod Initiation
pub mod Preserved
pub mod Reading
pub mod Rules
pub mod History
pub mod Lives
pub mod Ready
pub mod Queued
pub mod Custom
pub mod Findings
pub mod StartTime
