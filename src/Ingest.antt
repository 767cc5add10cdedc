-- ===== src/Ingest.antt =====
-- src/ingest.rs: the import of local files.
pub mod Kinds
pub mod Chunks
