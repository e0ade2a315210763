-- ===== src/Prune.antt =====
-- pkg/prune/prune.go: deleting the objects under a prefix that the manifest does not name.
pub mod Classify
pub mod Delete
pub mod Laws
pub mod Safety
pub mod Count
