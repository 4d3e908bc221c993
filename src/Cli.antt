-- ===== src/Cli.antt =====
-- cli/: the command-line tool that manages the nodes.
pub mod Sanitize
pub mod Ca
pub mod Config
pub mod Merge
pub mod Discover
pub mod Url
pub mod Progress
pub mod Pin
pub mod Session
pub mod Pins
pub mod Profile
pub mod Node
pub mod Status
pub mod Version
pub mod Authority
pub mod Certificates
pub mod Timeout
pub mod Main
pub mod Program
pub mod Tests
