-- ===== src/Store.antt =====
-- src/store.rs: the tables of the store, as lists of rows.
pub mod Procedures
pub mod Records
pub mod Mutations
pub mod Relations
pub mod Semantics
pub mod Search
