-- ===== src/Tests.antt =====
-- Concrete runs of the models, and the theorems at concrete inputs.
mod Computed
mod Coordination
mod Storage
mod Documents
mod Sessions
mod ComputedBoot
mod ComputedConsultation
mod Consultations
mod Boot
