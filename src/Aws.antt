-- ===== src/Aws.antt =====
-- internal/awsutils and pkg/awsclient: the calls of AWS, with their retries and what is read from
-- the answers.
mod Clients
mod Version
mod Retry
mod Ami
mod Update
pub mod Attempts
pub mod Answered
pub mod Unsupported
pub mod Versions
pub mod Paths
unfoldable pub use Clients.*
unfoldable pub use Version.*
unfoldable pub use Retry.*
unfoldable pub use Ami.*
unfoldable pub use Update.*
