-- ===== src/Examples.antt =====
-- Runs of the model on small concrete inputs.
pub mod Gate
pub mod Ingests
pub mod Imports
pub mod Hashes
pub mod Decisions
pub mod Recalls
pub mod Answers
pub mod Tables
pub mod Bundles
pub mod Canonicals
pub mod Payloads
pub mod Wires
pub mod Lifecycles
pub mod Quarantines
