-- ===== src/CaseStore.antt =====
-- The case store, internal/recovery/casestore.
pub mod Snapshot
pub mod Types
pub mod Chain
