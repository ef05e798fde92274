-- ===== src/Operation/Remote.antt =====
-- trsync/src/operation/executor/remote: what a local event makes of the server.
pub mod Absent
pub mod Created
pub mod Modified
pub mod Named
pub mod Kept
pub mod Restore
