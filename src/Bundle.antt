-- ===== src/Bundle.antt =====
-- src/portable_bundle.rs: the portable bundles that move memory between instances.
pub mod Base64
pub mod Paths
pub mod Reference
pub mod Json
pub mod Canonical
pub mod Manifest
pub mod Objects
pub mod Payload
