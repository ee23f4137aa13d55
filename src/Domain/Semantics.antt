-- ===== src/Domain/Semantics.antt =====
-- The rules of the persisted workflow state, internal/recovery/domain/workflow_semantics.go.
use effexor_win_doctor.Prelude.{
  Bool, true, false, [], ◌∷◌, not, ◌==◌, is_some, is_none, elems, contains_string, ok, err, guard,
  ◌>>◌,
}
use effexor_win_doctor.Domain.Errors.{errorf, Check}
use effexor_win_doctor.Domain.Workflow.{
  WorkflowStateName, evidence_collected, analyzed, plan_proposed, CaseWorkflowState, state_eq,
  state_text,
}
use effexor_win_doctor.Domain.Events.{CoordinatorEvent, CoordinatorEventType, plan_committed}
use effexor_win_doctor.Domain.Documents.{CaseManifest}

no_plan : CaseWorkflowState → Check
no_plan w =
    guard (w.active_plan_id == "")
      (errorf "state %q must not set active_plan_id" (state_text w.state ∷ []))

no_execution : CaseWorkflowState → Check
no_execution w =
    guard (w.active_execution_id == "")
      (errorf "state %q must not set active_execution_id" (state_text w.state ∷ []))

no_failure : CaseWorkflowState → Check
no_failure w =
    guard (is_none w.failure) (errorf "state %q must not set failure" (state_text w.state ∷ []))

document_rules : WorkflowStateName → CaseWorkflowState → Check
unfolding no_plan no_execution no_failure
document_rules evidence_collected w = do no_plan w; no_execution w; no_failure w
document_rules analyzed w = do no_plan w; no_execution w; no_failure w
document_rules plan_proposed w = do
  guard (not (w.active_plan_id == ""))
      (errorf "state %q requires active_plan_id" (state_text w.state ∷ []))
  no_execution w
  no_failure w
document_rules WorkflowStateName.failed w = do
  guard (is_some w.failure) (errorf "state %q requires failure" (state_text w.state ∷ []))
  no_execution w
document_rules WorkflowStateName.cancelled w = do no_failure w; no_execution w
document_rules _ w = ok tt

unfoldable pub validate_pr17_workflow_state_document_semantics : CaseWorkflowState → Check
unfolding document_rules
validate_pr17_workflow_state_document_semantics w = document_rules w.state w

is_plan_committed : CoordinatorEventType → Bool
is_plan_committed plan_committed = true
is_plan_committed _ = false

-- What the last event must be for each state; no other state is persisted.
last_event_rules : WorkflowStateName → CaseWorkflowState → CoordinatorEvent → Check
unfolding is_plan_committed
last_event_rules evidence_collected w last = ok tt
last_event_rules analyzed w last = ok tt
last_event_rules plan_proposed w last = do
  guard (is_plan_committed last.event_type)
      (errorf "state %q requires last event %q" (state_text w.state ∷ "plan_committed" ∷ []))
  guard (contains_string (elems last.referenced_document_ids) w.active_plan_id) (
      errorf "state %q requires last event refs to contain active_plan_id"
        (state_text w.state ∷ []))
last_event_rules WorkflowStateName.failed w last = ok tt
last_event_rules WorkflowStateName.cancelled w last = ok tt
last_event_rules _ w last =
    err
      (errorf "persisted workflow state %q is not implemented in PR #17" (state_text w.state ∷ []))

unfoldable pub validate_pr17_workflow_state_semantics :
    CaseWorkflowState → CaseManifest → CoordinatorEvent → Check
unfolding last_event_rules
validate_pr17_workflow_state_semantics w manifest last = do
  validate_pr17_workflow_state_document_semantics w
  last_event_rules w.state w last
  guard (w.updated_at == manifest.updated_at) (
      errorf "workflow updated_at %q must equal case updated_at %q"
        (w.updated_at ∷ manifest.updated_at ∷ []))
  guard (last.occurred_at == w.updated_at) (
      errorf "last transition occurred_at %q must equal workflow updated_at %q"
        (last.occurred_at ∷ w.updated_at ∷ []))
  guard (state_eq last.next_state w.state) (
      errorf "last transition next_state %q must equal workflow state %q"
        (state_text last.next_state ∷ state_text w.state ∷ []))
