-- ===== src/Coordinator/Transitions.antt =====
-- Which transitions a command may make, internal/recovery/coordinator/transitions.go.
pub mod Permitted
use effexor_win_doctor.Prelude.{
  ℕ, String, Option, none, some, List, [], ◌∷◌, ◌&&◌, ◌||◌, not, eqb, if◌then◌else◌, Result, ok,
  err, guard, ◌>>◌, Bool, true, false,
}
use effexor_win_doctor.Domain.Errors.{Check}
use effexor_win_doctor.Domain.Checks.{schema_version}
use effexor_win_doctor.Domain.Workflow.{
  WorkflowStateName, created, evidence_collected, analyzed, plan_proposed, state_eq,
}
use effexor_win_doctor.Domain.Events.{
  ActorType, CoordinatorEvent, CoordinatorEventType, case_created, analysis_committed,
  plan_committed, case_failed, case_cancelled, legacy_case_adopted, is_open,
  validate_pr17_coordinator_event_semantics,
}
use effexor_win_doctor.Coordinator.{CommandError, transition}

-- The switch, in its order.
unfoldable pub event_for : WorkflowStateName → WorkflowStateName → Option CoordinatorEventType
unfolding state_eq
event_for from to =
    if state_eq from created && state_eq to evidence_collected
    then some case_created
    else if state_eq from WorkflowStateName.unset && state_eq to evidence_collected
    then some legacy_case_adopted
    else if (state_eq from evidence_collected && state_eq to analyzed)
        || (state_eq from analyzed && state_eq to analyzed)
    then some analysis_committed
    else if state_eq from analyzed && state_eq to plan_proposed
    then some plan_committed
    else if is_open from && state_eq to WorkflowStateName.failed
    then some case_failed
    else if is_open from && state_eq to WorkflowStateName.cancelled
    then some case_cancelled
    else none

sample_revision : CoordinatorEventType → ℕ
sample_revision case_created = 1
sample_revision legacy_case_adopted = 1
sample_revision _ = 2

sample_commit : CoordinatorEventType → String
sample_commit case_created = ""
sample_commit _ = "commit-111111111111111111111111"

sample_previous : CoordinatorEventType → WorkflowStateName → WorkflowStateName
sample_previous legacy_case_adopted from = WorkflowStateName.unset
sample_previous _ from = from

-- The event that stands in for the one that the command will write.
unfoldable pub semantics :
    CoordinatorEventType → WorkflowStateName → WorkflowStateName → ActorType → CoordinatorEvent
unfolding sample_revision sample_commit sample_previous
semantics event_type from to actor = record {
  schema_name = "coordinator-event";
  schema_version = schema_version;
  event_id = "cevt-111111111111111111111111";
  case_id = "case-aaaaaaaaaaaaaaaaaaaaaaaa";
  event_type = event_type;
  actor_type = actor;
  occurred_at = "2026-07-29T12:00:00Z";
  previous_state = sample_previous event_type from;
  next_state = to;
  expected_commit_id = sample_commit event_type;
  workflow_revision = sample_revision event_type;
  referenced_document_ids = some ("case-aaaaaaaaaaaaaaaaaaaaaaaa" ∷ []);
  reason_code = "test_reason";
  command_id = "";
}

pub refused : WorkflowStateName → WorkflowStateName → String → CommandError
refused from to reason = transition (record { case_id = ""; from = from; to = to; reason = reason })

actor_check : WorkflowStateName → WorkflowStateName → Check → Result CommandError (Unit {0})
unfolding refused
actor_check from to (ok u) = ok u
actor_check from to (err e) = err (refused from to "actor_not_allowed")

is_analysis : CoordinatorEventType → Bool
is_analysis analysis_committed = true
is_analysis _ = false

is_plan : CoordinatorEventType → Bool
is_plan plan_committed = true
is_plan _ = false

unfoldable pub transition_of :
    Option CoordinatorEventType
    → WorkflowStateName
    → WorkflowStateName
    → ActorType
    → ℕ
    → ℕ
    → Result CommandError (Unit {0})
unfolding semantics refused actor_check is_analysis is_plan
transition_of none from to actor findings plans = err (refused from to "not_allowed")
transition_of (some event_type) from to actor findings plans = do
  actor_check from to
      (validate_pr17_coordinator_event_semantics (semantics event_type from to actor))
  guard (not (is_analysis event_type && eqb findings 0)) (refused from to "missing_findings")
  guard (not (is_plan event_type && eqb plans 0)) (refused from to "missing_plan")

unfoldable pub validate_transition :
    WorkflowStateName → WorkflowStateName → ActorType → ℕ → ℕ → Result CommandError (Unit {0})
unfolding event_for transition_of
validate_transition from to actor findings plans =
    transition_of (event_for from to) from to actor findings plans
