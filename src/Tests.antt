-- ===== src/Tests.antt =====
-- Concrete runs of the modelled functions.
pub mod Snapshots
pub mod Ports
pub mod Environments
pub mod Names
pub mod Gateway
pub mod Startup
pub mod Sessions
pub mod Blocks
pub mod Starts
pub mod Logs
pub mod Lifecycle
pub mod Endpoints
pub mod Terminal
pub mod Updates
