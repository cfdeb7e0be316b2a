-- ===== src/HelmV3.antt =====
-- The client of Helm 3 (pkg/helm/v3): the conversion of releases, the file of repositories, the
-- actions on releases and the downloads.
mod Convert
mod Repositories
mod Calls
mod Client
pub mod Conversions
pub mod Imports
pub mod Sorting
pub mod Indexes
pub mod Garbage
pub mod Histories
pub mod Deployments
unfoldable pub use Convert.*
unfoldable pub use Repositories.*
unfoldable pub use Calls.*
unfoldable pub use Client.*
