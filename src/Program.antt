-- ===== src/Program.antt =====
-- The program and its HTTP server: cmd/helm-operator/main.go, pkg/http/daemon/server.go, and the
-- writer that the log of other code goes to, pkg/utils/logwriter.go.
mod Options
mod Startup
mod Daemon
mod LogWriter
pub mod Versions
pub mod Mirrors
unfoldable pub use Options.*
unfoldable pub use Startup.*
unfoldable pub use Daemon.*
unfoldable pub use LogWriter.*
