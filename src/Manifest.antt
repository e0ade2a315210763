-- ===== src/Manifest.antt =====
-- The manifest schema: pkg/manifest/manifest.go and the modules below for the other files.
pub mod Path
pub mod Mode
pub mod Entry
pub mod Validate
pub mod Codec
pub mod Walk
