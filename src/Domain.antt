-- ===== src/Domain.antt =====
-- The recovery domain, internal/recovery/domain: its documents and their validation.
pub mod Errors
pub mod Patterns
pub mod Time
pub mod Checks
pub mod Workflow
pub mod Events
pub mod Json
pub mod Documents
pub mod Evidence
pub mod Plans
pub mod Records
pub mod Consultations
pub mod Topology
pub mod Semantics
pub mod CrossRefs
