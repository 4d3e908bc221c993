-- ===== src/Daemon.antt =====
-- daemon/: the service that runs on each managed node.
pub mod World
pub mod Manager
pub mod Apt
pub mod Brew
pub mod Config
pub mod Startup
pub mod Announce
pub mod Handlers
pub mod Upgrade
pub mod Selection
pub mod Commands
pub mod Tls
pub mod Shutdown
pub mod Serving
pub mod Main
pub mod Tests
