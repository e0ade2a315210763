-- ===== src/Pull/Resume.antt =====
-- pkg/pull/resume.go: a download that was cut off is continued from the bytes that it left.
pub mod Prefix
pub mod Extend
pub mod Download
