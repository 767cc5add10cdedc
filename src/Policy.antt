-- ===== src/Policy.antt =====
-- src/policy.rs: the gate that durable writes pass, the profile boundary, and classification.
pub mod Regex
pub mod Secrets
pub mod Screen
pub mod Boundary
pub mod Classify
