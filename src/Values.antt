-- ===== src/Values.antt =====
-- The values of a release (pkg/release/values.go).
mod Merge
mod Compose
pub mod MergeLaws
pub mod ComposeLaws
unfoldable pub use Merge.*
unfoldable pub use Compose.*
