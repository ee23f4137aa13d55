-- ===== src/Coordinator/Refs.antt =====
-- The references of an audit event, internal/recovery/coordinator/refs.go.
pub mod Members
use effexor_win_doctor.Prelude.{
  String, Option, none, some, List, [], ◌∷◌, ◌++◌, ◌==◌, if◌then◌else◌, elems, contains_string,
}
use effexor_win_doctor.Domain.Workflow.{CaseWorkflowState}
use effexor_win_doctor.Domain.Events.{document_id_case_workflow_state}
use effexor_win_doctor.Domain.Evidence.{Finding}
use effexor_win_doctor.Domain.Plans.{RepairPlan}
use effexor_win_doctor.Domain.CrossRefs.{step_targets}
use effexor_win_doctor.CaseStore.Snapshot.{Snapshot}
use effexor_win_doctor.CaseStore.Snapshot.Origin.{target_ids_of, evidence_ids_of}

-- The loop of `uniqueRefs`, with the ids seen so far.
unfoldable pub unique_refs_from : List String → List String → List String
unique_refs_from seen [] = []
unique_refs_from seen (id ∷ ids) =
    let skipped = unique_refs_from seen ids in
    let kept = id ∷ unique_refs_from (id ∷ seen) ids in
    if id == "" then skipped else if contains_string seen id then skipped else kept

unfoldable pub unique_refs : List String → List String
unfolding unique_refs_from
unique_refs ids = unique_refs_from [] ids

unfoldable pub create_or_adopt_refs : Snapshot → List String
create_or_adopt_refs s = unique_refs (
    s.manifest.case_id ∷ target_ids_of s.targets
    ++ evidence_ids_of s.evidence_bundles
    ++ document_id_case_workflow_state ∷ [])

abbrev pub findings_refs : List Finding → List String
findings_refs [] = []
findings_refs (f ∷ fs) =
    f.finding_id ∷ elems f.evidence_refs ++ elems f.affected_target_ids ++ findings_refs fs

unfoldable pub analysis_refs : String → List Finding → List String
analysis_refs case_id findings =
    unique_refs (case_id ∷ findings_refs findings ++ document_id_case_workflow_state ∷ [])

unfoldable pub plan_refs : String → RepairPlan → List String
plan_refs case_id plan = unique_refs (
    case_id ∷ plan.plan_id ∷ elems plan.finding_refs
    ++ step_targets (elems plan.steps)
    ++ document_id_case_workflow_state ∷ [])

active_plan : Option CaseWorkflowState → List String
active_plan none = []
active_plan (some w) = if w.active_plan_id == "" then [] else w.active_plan_id ∷ []

unfoldable pub terminal_refs : Snapshot → List String
unfolding active_plan
terminal_refs s =
    unique_refs
      (s.manifest.case_id ∷ document_id_case_workflow_state ∷ active_plan s.workflow_state)
