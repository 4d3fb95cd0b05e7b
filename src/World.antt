-- ===== src/World.antt =====
-- The state that a reconcile changes, and what it calls outside the repository: the clock, the
-- random numbers, the Kubernetes client and the AWS SDK. An answer from outside is a function of
-- the number of the call and of its arguments. Each call is recorded, newest first.
mod State
mod External
pub mod Frame
pub mod Keeps
pub mod Metered
pub mod Reads
pub mod Free
pub mod Stores
pub mod Clock
pub mod Kube
pub mod Sdk
unfoldable pub use State.*
unfoldable pub use External.*
