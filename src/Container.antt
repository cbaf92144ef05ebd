-- ===== src/Container.antt =====
-- internal/container: starting the emulator.
pub mod Expose
pub mod OptionalPorts
pub mod HostEnv
pub mod Gateway
pub mod Startup
pub mod Actions
pub mod Outside
pub mod Licenses
pub mod Select
pub mod Pulls
pub mod Retry
pub mod Build
pub mod Start
pub mod Running
pub mod Switch
pub mod LogTail
pub mod LogLines
pub mod Logs
pub mod LogStream
