-- ===== src/Push.antt =====
-- pkg/push/push.go: publishing a directory tree.
pub mod Key
pub mod Verify
pub mod Diff
pub mod Publish
