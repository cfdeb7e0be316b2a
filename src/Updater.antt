-- ===== src/Updater.antt =====
-- The loop that records the status of every release (`Updater`, pkg/status/status.go).
mod Loop
pub mod Quiet
unfoldable pub use Loop.*
