-- ===== src/HelmV3/Client.antt =====
-- The client of Helm 3 (pkg/helm/v3): generic releases, configurations, actions and downloads, and
-- all of them as an implementation of the interface of a client (`New`).
mod Generic
mod Actions
mod Downloads
mod Instance
unfoldable pub use Generic.*
unfoldable pub use Actions.*
unfoldable pub use Downloads.*
unfoldable pub use Instance.*
