-- ===== src/Core.antt =====
-- The crate `trsync_core`: the data that the synchronizer and its user interfaces share.
pub mod Types
pub mod Content
pub mod Error
pub mod Change
pub mod Json
pub mod Label
pub mod Client
pub mod Config
pub mod Instance
pub mod Job
