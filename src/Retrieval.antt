-- ===== src/Retrieval.antt =====
-- Hybrid retrieval, of src/hybrid_retrieval.rs.
pub mod Fusion
