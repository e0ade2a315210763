-- ===== src/Pull.antt =====
-- pkg/pull: mirroring a manifest snapshot into a directory.
pub mod Fetch
pub mod Options
pub mod Classify
pub mod Jobs
pub mod DryRun
pub mod Files
pub mod Write
pub mod Resume
pub mod Stage
pub mod Cycle
pub mod Disk
pub mod Recover
pub mod Swap
