-- ===== src/Update.antt =====
-- internal/update: lstk's update of itself.
pub mod Checksums
pub mod Extract
pub mod Install
pub mod Notify
pub mod LineWriter
