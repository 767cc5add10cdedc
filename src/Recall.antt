-- ===== src/Recall.antt =====
-- src/recall.rs: admission of candidate records, packing within the token budget, and search pages.
pub mod Admission
pub mod Facts
pub mod Float
pub mod Terms
pub mod Boost
pub mod ModeSignals
pub mod Pack
pub mod Score
pub mod Rank
pub mod Withheld
pub mod Respond
pub mod Search
