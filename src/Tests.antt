-- ===== src/Tests.antt =====
-- Sample data for every part, and runs at concrete inputs.
mod Format
mod Samples
mod Manifests
mod Bucket
mod Tree
mod Certificates
mod Cycles
mod Pulls
mod Pushes
