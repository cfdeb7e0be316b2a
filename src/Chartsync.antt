-- ===== src/Chartsync.antt =====
-- Fetching of charts (pkg/chartsync, and `CleanRepoURL` of the HelmRelease's chart source).
mod System
mod Aes
mod Fetch
mod Providers
pub mod Decryption
pub mod Caching
pub use System.*
unfoldable pub use Aes.*
unfoldable pub use Fetch.*
unfoldable pub use Providers.*
