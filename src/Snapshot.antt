-- ===== src/Snapshot.antt =====
-- internal/snapshot
pub mod Reference
pub mod Destination
