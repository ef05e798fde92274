-- ===== src/Remote.antt =====
-- trsync/src/remote: what watches the server.
pub mod Watcher
