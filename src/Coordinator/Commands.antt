-- ===== src/Coordinator/Commands.antt =====
-- The commands, internal/recovery/coordinator: commit_analysis.go, create_case.go and
-- adopt_legacy.go. Each `next_…` is the code between the read of the store and its write.
pub mod Advance
pub mod History
pub mod Concurrency
pub mod LostUpdate
pub mod Analysis
pub mod BootAnalysis
pub mod Consultation
pub mod Plan
pub mod Closing
pub mod Opening
use effexor_win_doctor.Prelude.{
  ℕ, String, Option, none, some, List, [], ◌∷◌, ◌==◌, if◌then◌else◌, length, Result, ok, err,
  map_err, ◌>>=◌, ◌>>◌,
}
use effexor_win_doctor.Domain.Errors.{Error}
use effexor_win_doctor.Domain.Workflow.{WorkflowStateName, CaseWorkflowState, WorkflowFailure}
use effexor_win_doctor.Domain.Events.{ActorType, CoordinatorEvent, CoordinatorEventType}
use effexor_win_doctor.CaseStore.Snapshot.{Snapshot}
use effexor_win_doctor.CaseStore.Snapshot.Validation.{validate}
use effexor_win_doctor.CaseStore.Types.{CommitInfo}
use effexor_win_doctor.Coordinator.{
  CommandError, invalid_snapshot, transition, Readings, current_state, CaseView, Store,
}
use effexor_win_doctor.Coordinator.State.{
  append_event, set_workflow, next_revision, EventFields, new_audit_event, stamp_audit_event,
}
use effexor_win_doctor.Coordinator.Access.{load_expected, commit_snapshot}
use effexor_win_doctor.Coordinator.Transitions.{validate_transition}

-- `te.CaseID = req.CaseID`
in_case : String → CommandError → CommandError
in_case case_id (transition e) = transition (record e { case_id = case_id })
in_case case_id e = e

unfoldable pub check_transition :
    String
    → WorkflowStateName
    → WorkflowStateName
    → ActorType
    → ℕ
    → ℕ
    → Result CommandError (Unit {0})
unfolding in_case
check_transition case_id from to actor findings plans =
    map_err (in_case case_id) (validate_transition from to actor findings plans)

active_plan_of : Option CaseWorkflowState → String
active_plan_of none = ""
active_plan_of (some w) = w.active_plan_id

-- `activePlan`, which a command other than CommitPlan keeps.
unfoldable pub active_plan : Snapshot → String
unfolding active_plan_of
active_plan s = active_plan_of s.workflow_state

-- The end of a command: the event's references and time, and the checks of the whole snapshot.
unfoldable pub finish :
    CoordinatorEvent → (Snapshot → List String) → Snapshot → Result CommandError Snapshot
finish e refs moved =
    let stamped = stamp_audit_event moved e.event_id (refs moved) moved.manifest.updated_at in
    map_err invalid_snapshot (validate stamped) >> ok stamped

-- What every command does after its own checks: the event, the workflow and the end. The references
-- are read from the snapshot with its workflow set.
unfoldable pub advance :
    Readings
    → EventFields
    → Option WorkflowFailure
    → String
    → (Snapshot → List String)
    → Snapshot
    → Result CommandError Snapshot
advance r f failure active_plan_id refs snap = new_audit_event r f >>= λ e.
    map_err invalid_snapshot (
      set_workflow r.workflow_time (append_event snap e) f.next e.event_id f.revision failure
        active_plan_id)
    >>= finish e refs

-- A command on a case that is expected at a commit: nothing is written unless all its checks pass.
module _ {S : Type 0} (store : Store S) where
  unfoldable pub published :
      S → String → Result CommandError Snapshot → S × Result CommandError CaseView
  published s head (err e) = (s, err e)
  published s head (ok snap) = commit_snapshot store s snap head

  unfoldable pub after_load :
      S
      → (Snapshot → CommitInfo → Result CommandError Snapshot)
      → Result CommandError (Snapshot × CommitInfo)
      → S × Result CommandError CaseView
  unfolding published
  after_load s next (err e) = (s, err e)
  after_load s next (ok (snap, info)) = published s info.commit_id (next snap info)

  unfoldable pub run_command :
      S
      → String
      → String
      → (Snapshot → CommitInfo → Result CommandError Snapshot)
      → S × Result CommandError CaseView
  unfolding after_load
  run_command s case_id expected next = after_load s next (load_expected store s case_id expected)
