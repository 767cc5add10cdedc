-- ===== src/Domain.antt =====
-- src/domain.rs: the enumerations of the durable records, one module each.
pub mod Profile
pub mod Scope
pub mod RecordType
pub mod Sensitivity
pub mod Portability
pub mod SubjectKind
pub mod TemporalState
pub mod MemoryRecord
pub mod Wire
