-- ===== src/Store.antt =====
-- store.go: transfers in memory and on disk.
pub mod Meta
pub mod Disk
pub mod Ops
pub mod Load
pub mod Names
pub mod Invariant
pub mod Cases
pub mod Sweep
pub mod Burn
pub mod Ids
pub mod Sorted
pub mod Run
mod Examples
pub mod Contract
pub mod Changes
pub mod Apart
pub mod Success
pub mod Chunks
