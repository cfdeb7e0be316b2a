-- ===== src/Status.antt =====
-- The status of a HelmRelease as the operator keeps it (pkg/status).
mod Phase
mod Conditions
mod Metrics
mod Update
mod Queries
pub mod Laws
pub mod Phases
pub mod Rollbacks
pub mod Retry
pub mod Gauges
unfoldable pub use Phase.*
unfoldable pub use Conditions.*
unfoldable pub use Metrics.*
unfoldable pub use Update.*
unfoldable pub use Queries.*
