-- ===== src/Release.antt =====
-- The release of a chart for a HelmRelease (pkg/release).
mod Observing
mod Context
mod Manifest
mod Operations
mod Cases
mod Run
mod Decide
mod Prepare
mod PostRender
pub mod Diagram
pub mod Ends
pub mod ErrorsKept
pub mod Ownership
pub mod Failures
pub mod Undo
pub mod Labels
pub mod Replacing
pub mod Safety
pub mod Steady
pub mod Syncing
pub mod Delivery
pub mod Upgrading
pub mod Readiness
pub mod NoPanic
pub mod Returning
pub mod Decisions
pub use Context.{Config, Action, Object, Unstructured, Export, Chart, Env}
unfoldable pub use Observing.*
unfoldable pub use Context.{with_defaults, action_string, Clients, load, add}
unfoldable pub use Manifest.*
unfoldable pub use Operations.*
unfoldable pub use Cases.*
unfoldable pub use Run.*
unfoldable pub use Decide.*
unfoldable pub use Prepare.*
unfoldable pub use PostRender.*
