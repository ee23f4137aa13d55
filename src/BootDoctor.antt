-- ===== src/BootDoctor.antt =====
-- The boot doctor, internal/recovery/bootdoctor: findings from a boot topology.
pub mod Codes
pub mod Catalog
pub mod Identity
pub mod Suppress
pub mod Queries
pub mod Drafts
pub mod Analyze
pub mod Example
