-- ===== src/Coordinator/Commands/Closing.antt =====
-- `FailCase` and `CancelCase` of internal/recovery/coordinator/commit_analysis.go.
use effexor_win_doctor.Prelude.{none, some, length, Result, ◌>>◌}
use effexor_win_doctor.Domain.Workflow.{WorkflowStateName}
use effexor_win_doctor.Domain.Events.{case_failed, case_cancelled, technician}
use effexor_win_doctor.CaseStore.Snapshot.{Snapshot}
use effexor_win_doctor.CaseStore.Types.{CommitInfo}
use effexor_win_doctor.Coordinator.{
  CommandError, Readings, FailCaseRequest, CaseRequest, CaseView, Store, current_state,
}
use effexor_win_doctor.Coordinator.State.{EventFields, default_actor, default_reason, next_revision}
use effexor_win_doctor.Coordinator.Refs.{terminal_refs}
use effexor_win_doctor.Coordinator.Commands.{check_transition, active_plan, advance, run_command}

-- The events that the commands write on a snapshot.
abbrev pub failure_fields : FailCaseRequest → Snapshot → CommitInfo → EventFields
failure_fields q snap info = record {
  case_id = q.case_id;
  event_type = case_failed;
  actor = default_actor q.actor technician;
  prev = current_state snap;
  next = WorkflowStateName.failed;
  expected_commit_id = info.commit_id;
  reason_code = default_reason q.reason_code "case_failed";
  command_id = q.command_id;
  revision = next_revision snap;
}

abbrev pub cancellation_fields : CaseRequest → Snapshot → CommitInfo → EventFields
cancellation_fields q snap info = record {
  case_id = q.case_id;
  event_type = case_cancelled;
  actor = default_actor q.actor technician;
  prev = current_state snap;
  next = WorkflowStateName.cancelled;
  expected_commit_id = info.commit_id;
  reason_code = default_reason q.reason_code "case_cancelled";
  command_id = q.command_id;
  revision = next_revision snap;
}

unfoldable pub next_failure :
    Readings → FailCaseRequest → Snapshot → CommitInfo → Result CommandError Snapshot
next_failure r q snap info =
    check_transition q.case_id (current_state snap) WorkflowStateName.failed
      (default_actor q.actor technician) (length snap.findings) (length snap.repair_plans)
    >> advance r (failure_fields q snap info)
        (some (record {
          reason_code = default_reason q.reason_code "case_failed";
          detail_code = q.detail_code;
        }))
        (active_plan snap) terminal_refs snap

unfoldable pub next_cancellation :
    Readings → CaseRequest → Snapshot → CommitInfo → Result CommandError Snapshot
next_cancellation r q snap info =
    check_transition q.case_id (current_state snap) WorkflowStateName.cancelled
      (default_actor q.actor technician) (length snap.findings) (length snap.repair_plans)
    >> advance r (cancellation_fields q snap info) none (active_plan snap) terminal_refs snap

unfoldable pub fail_case :
    {S : Type 0} → Store S → Readings → FailCaseRequest → S → S × Result CommandError CaseView
fail_case store r q s = run_command store s q.case_id q.expected_commit_id (next_failure r q)

unfoldable pub cancel_case :
    {S : Type 0} → Store S → Readings → CaseRequest → S → S × Result CommandError CaseView
cancel_case store r q s = run_command store s q.case_id q.expected_commit_id (next_cancellation r q)
