-- ===== src/Coordinator.antt =====
-- The recovery coordinator, internal/recovery/coordinator: errors.go, commands.go, coordinator.go
-- and ids.go. The case store is the interface of coordinator.go, with its state passed explicitly;
-- the clock's readings and the id source's answer are arguments of a command.
pub mod Examples
pub mod ChainStore
pub mod State
pub mod Refs
pub mod Merge
pub mod Transitions
pub mod Access
pub mod Commands
pub mod Acquire
use effexor_win_doctor.Prelude.{
  ℕ, String, str_append, Bool, Option, none, some, List, Result, ok, err, hex_encode,
}
use effexor_win_doctor.Domain.Errors.{Error}
use effexor_win_doctor.Domain.Workflow.{WorkflowStateName, CaseWorkflowState}
use effexor_win_doctor.Domain.Events.{ActorType}
use effexor_win_doctor.Domain.Evidence.{Finding}
use effexor_win_doctor.Domain.Plans.{RepairPlan}
use effexor_win_doctor.CaseStore.Snapshot.{Snapshot}
use effexor_win_doctor.CaseStore.Types.{StoreError, CommitInfo, CommitRequest, IntegrityStatus}

-- `TransitionError`
pub record TransitionError : Type 0 where
  pub case_id : String
  pub from : WorkflowStateName
  pub to : WorkflowStateName
  pub reason : String

pub data CommandError : Type 0 where
  invalid_argument : String → CommandError
  invalid_snapshot : Error → CommandError
  transition : TransitionError → CommandError
  -- the case, the expected commit and the actual one
  revision_conflict_error : String → String → String → CommandError
  case_already_exists : String → String → CommandError
  case_busy case_corrupt actor_not_allowed marshal_error : CommandError
  legacy_adoption_rejected missing_document : String → CommandError
  acquisition_conflict : String → String → CommandError
  store_error : StoreError → CommandError

-- The interface `Store`; S is what the store keeps. Reading does not change it.
pub record Store (S : Type 0) : Type 0 where
  pub commit : S → CommitRequest → S × Result StoreError CommitInfo
  pub load_latest : S → String → Result StoreError (Snapshot × CommitInfo)
  pub verify : S → String → Result StoreError IntegrityStatus

-- What one command reads from outside: the clock for the event and then for the workflow, in
-- nanoseconds, and the id source's answer for the prefix `cevt`.
pub record Readings : Type 0 where
  pub event_time : ℕ
  pub workflow_time : ℕ
  pub event_id : Result CommandError String

-- `randomIDSource.NewID` with the twelve bytes that were read, if they could be.
unfoldable pub new_id : Option (List ℕ) → String → Result CommandError String
unfolding hex_encode
new_id none prefix = err (invalid_argument "allocate id")
new_id (some bytes) prefix = ok (str_append prefix (str_append "-" (hex_encode bytes)))

pub record CreateCaseRequest : Type 0 where
  pub diagnostic_report : List ℕ
  pub command_id : String
  pub actor : ActorType
  pub reason_code : String

pub record CommitAnalysisRequest : Type 0 where
  pub case_id : String
  pub expected_commit_id : String
  pub findings : List Finding
  pub actor : ActorType
  pub reason_code : String
  pub command_id : String

pub record CommitPlanRequest : Type 0 where
  pub case_id : String
  pub expected_commit_id : String
  pub plan : RepairPlan
  pub actor : ActorType
  pub reason_code : String
  pub command_id : String

pub record FailCaseRequest : Type 0 where
  pub case_id : String
  pub expected_commit_id : String
  pub actor : ActorType
  pub reason_code : String
  pub detail_code : String
  pub command_id : String

-- A cancellation and an adoption carry the same fields.
pub record CaseRequest : Type 0 where
  pub case_id : String
  pub expected_commit_id : String
  pub actor : ActorType
  pub reason_code : String
  pub command_id : String

pub record CaseView : Type 0 where
  pub snapshot : Snapshot
  pub commit_info : CommitInfo
  pub state : WorkflowStateName

state_of : Option CaseWorkflowState → WorkflowStateName
state_of none = WorkflowStateName.unset
state_of (some w) = w.state

-- `currentState`
unfoldable pub current_state : Snapshot → WorkflowStateName
unfolding state_of
current_state s = state_of s.workflow_state

unfoldable pub view_from : Snapshot → CommitInfo → CaseView
view_from s info = record { snapshot = s; commit_info = info; state = current_state s }
