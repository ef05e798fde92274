-- ===== src/Local.antt =====
-- trsync/src/local: what watches the synchronized folder.
pub mod Reducer
pub mod Watcher
