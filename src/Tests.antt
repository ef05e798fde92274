-- ===== src/Tests.antt =====
-- The theorems at concrete inputs.
mod Data
mod Reducer
mod Stores
mod Operations
mod Startup
mod Runs
mod Watchers
mod Configuration
mod Daemon
mod Window
mod Answers
mod Echo
mod Moved
mod Removed
