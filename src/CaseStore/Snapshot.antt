-- ===== src/CaseStore/Snapshot.antt =====
-- A case's snapshot, internal/recovery/casestore: types.go and snapshot.go. A nil slice and an
-- empty one are the same list here: the source only tells them apart when it writes JSON, after
-- `Normalize`. A set or a map is the list of its entries.
pub mod Sets
pub mod Transitions
pub mod Provenance
pub mod References
pub mod Origin
pub mod Artifacts
pub mod Validation
use effexor_win_doctor.Prelude.{String, Option, none, some, List, [], ◌∷◌, ◌==◌, if◌then◌else◌}
use effexor_win_doctor.Domain.Workflow.{CaseWorkflowState}
use effexor_win_doctor.Domain.Events.{CoordinatorEvent}
use effexor_win_doctor.Domain.Documents.{CaseManifest, Target}
use effexor_win_doctor.Domain.Evidence.{EvidenceBundle, Finding}
use effexor_win_doctor.Domain.Plans.{RepairPlan}
use effexor_win_doctor.Domain.Records.{
  ExecutionEvent, VerificationReport, EvidenceAcquisitionRecord,
}
use effexor_win_doctor.Domain.Consultations.{AgentConsultation}

-- The field `Case` is `manifest` here.
pub record Snapshot : Type 0 where
  pub manifest : CaseManifest
  pub targets : List Target
  pub evidence_bundles : List EvidenceBundle
  pub findings : List Finding
  pub repair_plans : List RepairPlan
  pub execution_events : List ExecutionEvent
  pub verification_reports : List VerificationReport
  pub workflow_state : Option CaseWorkflowState
  pub coordinator_events : List CoordinatorEvent
  pub evidence_acquisitions : List EvidenceAcquisitionRecord
  pub agent_consultations : List AgentConsultation

-- findFindingByID and the functions beside it
unfoldable pub find_finding_by_id : List Finding → String → Option Finding
find_finding_by_id [] want = none
find_finding_by_id (f ∷ fs) want =
    if f.finding_id == want then some f else find_finding_by_id fs want

unfoldable pub find_plan_by_id : List RepairPlan → String → Option RepairPlan
find_plan_by_id [] want = none
find_plan_by_id (p ∷ ps) want = if p.plan_id == want then some p else find_plan_by_id ps want

unfoldable pub find_target_by_id : List Target → String → Option Target
find_target_by_id [] want = none
find_target_by_id (t ∷ ts) want = if t.target_id == want then some t else find_target_by_id ts want

unfoldable pub find_evidence_by_id : List EvidenceBundle → String → Option EvidenceBundle
find_evidence_by_id [] want = none
find_evidence_by_id (e ∷ es) want =
    if e.evidence_id == want then some e else find_evidence_by_id es want
