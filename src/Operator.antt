-- ===== src/Operator.antt =====
-- The controller of HelmRelease resources (pkg/operator/operator.go).
mod Calls
mod Queue
mod Handlers
mod Turns
pub mod Items
pub mod Updates
pub mod Alone
pub mod Locks
pub mod Bystanders
pub mod Exclusion
unfoldable pub use Calls.*
unfoldable pub use Queue.*
unfoldable pub use Handlers.*
unfoldable pub use Turns.*
