-- ===== src/Operation.antt =====
-- trsync/src/operation: the executors of events, and the operator that runs them.
pub mod Host
pub mod Exec
pub mod Disk
pub mod Remote
pub mod Operator
