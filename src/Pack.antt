-- ===== src/Pack.antt =====
-- src/pack_cas.cpp: the packfile store.
pub mod File
pub mod Index
pub mod Platform
pub mod Blob
pub mod State
pub mod Batch
pub mod Blobs
pub mod Meta
pub mod Compact
pub mod Open
mod Runs
