-- ===== src/Api.antt =====
-- The HelmRelease resource (pkg/apis/helm.fluxcd.io/v1): its data and its accessors.
mod Refs
mod Spec
mod Status
mod Getters
pub use Refs.*
pub use Spec.*
unfoldable pub use Status.*
unfoldable pub use Getters.*
