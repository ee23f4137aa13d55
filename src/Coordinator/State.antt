-- ===== src/Coordinator/State.antt =====
-- Edits of a snapshot, internal/recovery/coordinator: state.go and audit.go.
use effexor_win_doctor.Prelude.{
  ℕ, String, ◌+◌, ◌%◌, max, Option, none, some, List, [], ◌∷◌, ◌++◌, ◌==◌, if◌then◌else◌, Result,
  ok, ◌>>=◌,
}
use effexor_win_doctor.Domain.Errors.{Error}
use effexor_win_doctor.Domain.Time.{parse, format}
use effexor_win_doctor.Domain.Checks.{schema_version}
use effexor_win_doctor.Domain.Workflow.{
  WorkflowStateName, CaseWorkflowState, WorkflowFailure, case_state_for_workflow,
}
use effexor_win_doctor.Domain.Events.{ActorType, CoordinatorEvent, CoordinatorEventType}
use effexor_win_doctor.CaseStore.Snapshot.{Snapshot}
use effexor_win_doctor.Coordinator.{CommandError, Readings}

unfoldable pub append_event : Snapshot → CoordinatorEvent → Snapshot
append_event s e = record s { coordinator_events = s.coordinator_events ++ e ∷ [] }

-- A time that does not parse is passed over.
later : ℕ → Option ℕ → ℕ
later t none = t
later t (some u) = max t u

workflow_time_of : Option CaseWorkflowState → Option ℕ
workflow_time_of none = none
workflow_time_of (some w) = parse w.updated_at

unfoldable pub monotonic_now : ℕ → Snapshot → String
unfolding later workflow_time_of
monotonic_now now s = format (
    later (later (later now (parse s.manifest.created_at)) (parse s.manifest.updated_at))
      (workflow_time_of s.workflow_state))

-- The active execution is left unset.
unfoldable pub set_workflow :
    ℕ
    → Snapshot
    → WorkflowStateName
    → String
    → ℕ
    → Option WorkflowFailure
    → String
    → Result Error Snapshot
set_workflow now s state event_id revision failure active_plan_id =
    case_state_for_workflow state >>= λ case_state.
    let at = monotonic_now now s in
    ok (record s {
      manifest = record s.manifest { updated_at = at; current_state = case_state };
      workflow_state = some (record {
        schema_name = "case-workflow-state";
        schema_version = schema_version;
        case_id = s.manifest.case_id;
        state = state;
        revision = revision;
        updated_at = at;
        last_transition_id = event_id;
        active_plan_id = active_plan_id;
        active_execution_id = "";
        failure = failure;
      });
    })

revision_after : Option CaseWorkflowState → ℕ
revision_after none = 1
revision_after (some w) = (w.revision + 1) % 18446744073709551616

-- uint64 arithmetic
unfoldable pub next_revision : Snapshot → ℕ
unfolding revision_after
next_revision s = revision_after s.workflow_state

unfoldable pub default_actor : ActorType → ActorType → ActorType
default_actor ActorType.unset fallback = fallback
default_actor actor fallback = actor

unfoldable pub default_reason : String → String → String
default_reason code fallback = if code == "" then fallback else code

-- The fields that a command sets, with the event's references still empty.
pub record EventFields : Type 0 where
  pub case_id : String
  pub event_type : CoordinatorEventType
  pub actor : ActorType
  pub prev : WorkflowStateName
  pub next : WorkflowStateName
  pub expected_commit_id : String
  pub reason_code : String
  pub command_id : String
  pub revision : ℕ

abbrev pub event_of : Readings → EventFields → String → CoordinatorEvent
event_of r f id = record {
  schema_name = "coordinator-event";
  schema_version = schema_version;
  event_id = id;
  case_id = f.case_id;
  event_type = f.event_type;
  actor_type = f.actor;
  occurred_at = format r.event_time;
  previous_state = f.prev;
  next_state = f.next;
  expected_commit_id = f.expected_commit_id;
  workflow_revision = f.revision;
  referenced_document_ids = some [];
  reason_code = f.reason_code;
  command_id = f.command_id;
}

-- `newAuditEvent` without references
unfoldable pub new_audit_event : Readings → EventFields → Result CommandError CoordinatorEvent
new_audit_event r f = r.event_id >>= λ id. ok (event_of r f id)

-- A slice that `append([]string(nil), refs...)` copies: it is nil when there are no references.
abbrev pub copied : List String → Option (List String)
copied [] = none
copied (r ∷ refs) = some (r ∷ refs)

abbrev pub stamped : List String → String → CoordinatorEvent → CoordinatorEvent
stamped refs at e = record e { referenced_document_ids = copied refs; occurred_at = at }

-- The loop of `stampAuditEvent`: only the first event with the id changes.
unfoldable pub stamp_first :
    String → List String → String → List CoordinatorEvent → List CoordinatorEvent
stamp_first id refs at [] = []
stamp_first id refs at (e ∷ es) =
    let rest = stamp_first id refs at es in
    if e.event_id == id then stamped refs at e ∷ es else e ∷ rest

unfoldable pub stamp_audit_event : Snapshot → String → List String → String → Snapshot
unfolding stamp_first
stamp_audit_event s id refs at = record s {
  coordinator_events = stamp_first id refs at s.coordinator_events;
}
