-- ===== src/CaseStore/Snapshot/Provenance.antt =====
-- `validateLifecycleProvenance` of internal/recovery/casestore/snapshot.go: every finding and plan
-- stands in an audit event, and each state has the documents that it stands for.
use effexor_win_doctor.Prelude.{
  String, Option, none, some, List, [], ◌∷◌, ◌++◌, ◌&&◌, not, ◌==◌, if◌then◌else◌, is_some,
  is_empty, elems, contains_string, ok, guard, ◌>>◌,
}
use effexor_win_doctor.Domain.Errors.{errorf, Check}
use effexor_win_doctor.Domain.Workflow.{
  WorkflowStateName, CaseWorkflowState, evidence_collected, analyzed, plan_proposed, state_text,
}
use effexor_win_doctor.Domain.Events.{
  CoordinatorEvent, CoordinatorEventType, analysis_committed, plan_committed,
}
use effexor_win_doctor.Domain.Evidence.{Finding}
use effexor_win_doctor.Domain.Plans.{RepairPlan}
use effexor_win_doctor.CaseStore.Snapshot.{Snapshot, find_finding_by_id, find_plan_by_id}

-- The ids of a list that a document of the snapshot has.
known_findings : List Finding → List String → List String
known_findings findings [] = []
known_findings findings (id ∷ ids) =
    let rest = known_findings findings ids in
    if is_some (find_finding_by_id findings id) then id ∷ rest else rest

known_plans : List RepairPlan → List String → List String
known_plans plans [] = []
known_plans plans (id ∷ ids) =
    let rest = known_plans plans ids in
    if is_some (find_plan_by_id plans id) then id ∷ rest else rest

finding_ids_of : CoordinatorEventType → List Finding → List String → List String
unfolding known_findings
finding_ids_of analysis_committed findings ids = known_findings findings ids
finding_ids_of _ findings ids = []

plan_ids_of : CoordinatorEventType → List RepairPlan → List String → List String
unfolding known_plans
plan_ids_of plan_committed plans ids = known_plans plans ids
plan_ids_of _ plans ids = []

audited_findings : List Finding → List CoordinatorEvent → List String
unfolding finding_ids_of
audited_findings findings [] = []
audited_findings findings (e ∷ es) =
    finding_ids_of e.event_type findings (elems e.referenced_document_ids)
    ++ audited_findings findings es

audited_plans : List RepairPlan → List CoordinatorEvent → List String
unfolding plan_ids_of
audited_plans plans [] = []
audited_plans plans (e ∷ es) =
    plan_ids_of e.event_type plans (elems e.referenced_document_ids) ++ audited_plans plans es

findings_audited : List String → List Finding → Check
findings_audited audited [] = ok tt
findings_audited audited (f ∷ fs) =
    guard (contains_string audited f.finding_id)
      (errorf "finding %q lacks analysis_committed provenance" (f.finding_id ∷ []))
    >> findings_audited audited fs

plans_audited : List String → List RepairPlan → Check
plans_audited audited [] = ok tt
plans_audited audited (p ∷ ps) =
    guard (contains_string audited p.plan_id)
      (errorf "plan %q lacks plan_committed provenance" (p.plan_id ∷ []))
    >> plans_audited audited ps

-- The switch over the workflow's state.
unfoldable pub state_documents : WorkflowStateName → CaseWorkflowState → Snapshot → Check
state_documents evidence_collected w s =
    guard (is_empty s.findings && is_empty s.repair_plans)
      (errorf "state %q must not contain findings or repair plans" (state_text w.state ∷ []))
state_documents analyzed w s = do
  guard (not (is_empty s.findings))
      (errorf "state %q requires at least one finding" (state_text w.state ∷ []))
  guard (is_empty s.repair_plans)
      (errorf "state %q must not contain repair plans" (state_text w.state ∷ []))
state_documents plan_proposed w s = do
  guard (not (is_empty s.findings))
      (errorf "state %q requires audited findings" (state_text w.state ∷ []))
  guard (not (is_empty s.repair_plans))
      (errorf "state %q requires audited repair plans" (state_text w.state ∷ []))
  guard (not (w.active_plan_id == ""))
      (errorf "state %q requires active_plan_id" (state_text w.state ∷ []))
  guard (is_some (find_plan_by_id s.repair_plans w.active_plan_id))
      (errorf "active_plan_id %q missing from repair plans" (w.active_plan_id ∷ []))
state_documents _ w s = ok tt

workflow_documents : Option CaseWorkflowState → Snapshot → Check
unfolding audited_findings audited_plans findings_audited plans_audited
workflow_documents none s = ok tt
workflow_documents (some w) s = do
  findings_audited (audited_findings s.findings s.coordinator_events) s.findings
  plans_audited (audited_plans s.repair_plans s.coordinator_events) s.repair_plans
  state_documents w.state w s

unfoldable pub validate_lifecycle_provenance : Snapshot → Check
unfolding workflow_documents
validate_lifecycle_provenance s = do
  guard (is_empty s.execution_events) (errorf "execution events are not implemented in PR #17" [])
  guard (is_empty s.verification_reports)
      (errorf "verification reports are not implemented in PR #17" [])
  workflow_documents s.workflow_state s
