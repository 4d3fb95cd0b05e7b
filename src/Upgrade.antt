-- ===== src/Upgrade.antt =====
-- internal/upgrade/upgrade.go.
mod Status
mod Track
mod Initiate
unfoldable pub use Status.*
unfoldable pub use Track.*
unfoldable pub use Initiate.*
pub mod Kept
pub mod Lit
pub mod Counted
pub mod Process
pub mod Lost
pub mod Lifecycle
pub mod Stores
pub mod Polls
pub mod Stored
pub mod WellFormed
