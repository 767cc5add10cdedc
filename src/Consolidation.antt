-- ===== src/Consolidation.antt =====
-- src/consolidation/: the versioned contracts of governed consolidation and its candidate policy.
pub mod Types
pub mod Evaluate
pub mod Fingerprint
pub mod Batch
