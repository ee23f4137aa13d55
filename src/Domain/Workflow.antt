-- ===== src/Domain/Workflow.antt =====
-- The workflow state of a case, internal/recovery/domain: workflow_state.go, workflow_manifest.go
-- and the states of case_manifest.go. Go's enumerations are texts: `unset` is the empty text, and
-- `unknown` any other text that the source does not list.
use effexor_win_doctor.Prelude.{
  ℕ, String, ◌-◌, ◌≡◌, refl, sym, ap, ◌∙◌, ap₂, Bool, true, false, Option, none, some, List, [],
  ◌∷◌, ◌&&◌, arith, leb, eqb, ◌==◌, if◌then◌else◌, eq_iff, Result, ok, err, guard, ◌>>◌, map_err,
}
use effexor_win_doctor.Domain.Errors.{Error, errorf, wrap, Check}
use effexor_win_doctor.Domain.Patterns.{
  re_case_id, re_coordinator_event_id, re_plan_id, re_execution_id, re_reason_code,
}
use effexor_win_doctor.Domain.Checks.{
  require_enum, require_match, require_rfc3339, require_schema, if_set,
}

pub data WorkflowStateName : Type 0 where
  created evidence_collected analyzed plan_proposed : WorkflowStateName
  awaiting_approval approved backing_up ready_to_execute : WorkflowStateName
  executing verifying completed failed : WorkflowStateName
  rollback_required rolling_back rolled_back cancelled unset : WorkflowStateName
  unknown : String → WorkflowStateName

pub data CaseState : Type 0 where
  new discovering snapshotted diagnosing diagnosed planned : CaseState
  awaiting_approval executing verifying resolved partially_resolved blocked : CaseState
  escalated cancelled failed rollback_required rolled_back : CaseState
  data_preservation_required unset : CaseState
  unknown : String → CaseState

-- `==` on workflow states: the number of the constructor, and the text of an unknown one.
index : WorkflowStateName → ℕ
index created = 0
index evidence_collected = 1
index analyzed = 2
index plan_proposed = 3
index WorkflowStateName.awaiting_approval = 4
index approved = 5
index backing_up = 6
index ready_to_execute = 7
index WorkflowStateName.executing = 8
index WorkflowStateName.verifying = 9
index completed = 10
index WorkflowStateName.failed = 11
index WorkflowStateName.rollback_required = 12
index rolling_back = 13
index WorkflowStateName.rolled_back = 14
index WorkflowStateName.cancelled = 15
index WorkflowStateName.unset = 16
index (WorkflowStateName.unknown t) = 17

unlisted : WorkflowStateName → String
unlisted (WorkflowStateName.unknown t) = t
unlisted created = ""
unlisted _ = ""

-- `string(state)`
unfoldable pub state_text : WorkflowStateName → String
state_text created = "created"
state_text evidence_collected = "evidence_collected"
state_text analyzed = "analyzed"
state_text plan_proposed = "plan_proposed"
state_text WorkflowStateName.awaiting_approval = "awaiting_approval"
state_text approved = "approved"
state_text backing_up = "backing_up"
state_text ready_to_execute = "ready_to_execute"
state_text WorkflowStateName.executing = "executing"
state_text WorkflowStateName.verifying = "verifying"
state_text completed = "completed"
state_text WorkflowStateName.failed = "failed"
state_text WorkflowStateName.rollback_required = "rollback_required"
state_text rolling_back = "rolling_back"
state_text WorkflowStateName.rolled_back = "rolled_back"
state_text WorkflowStateName.cancelled = "cancelled"
state_text WorkflowStateName.unset = ""
state_text (WorkflowStateName.unknown t) = t

unfoldable pub state_eq : WorkflowStateName → WorkflowStateName → Bool
unfolding index unlisted
state_eq a b = eqb (index a) (index b) && unlisted a == unlisted b

listed : List WorkflowStateName
listed =
    created ∷ evidence_collected ∷ analyzed ∷ plan_proposed ∷ WorkflowStateName.awaiting_approval
    ∷ approved ∷ backing_up ∷ ready_to_execute ∷ WorkflowStateName.executing
    ∷ WorkflowStateName.verifying ∷ completed ∷ WorkflowStateName.failed
    ∷ WorkflowStateName.rollback_required ∷ rolling_back ∷ WorkflowStateName.rolled_back
    ∷ WorkflowStateName.cancelled ∷ WorkflowStateName.unset ∷ []

nth : List WorkflowStateName → ℕ → String → WorkflowStateName
nth [] i t = WorkflowStateName.unknown t
nth (s ∷ ss) i t = let rest = nth ss (i - 1) t in if eqb i 0 then s else rest

nth-index : (s : WorkflowStateName) → nth listed (index s) (unlisted s) ≡ s
unfolding nth index unlisted listed
nth-index created = refl
nth-index _ = refl

pub state_eq→≡ : (a b : WorkflowStateName) → state_eq a b ≡ true → a ≡ b
unfolding state_eq
state_eq→≡ a b h =
    let i : index a ≡ index b = ground arith in
    let u : unlisted a ≡ unlisted b = ground (arith, eq_iff (unlisted a) (unlisted b)) in
    sym (nth-index a) ∙ ap₂ (nth listed) i u ∙ nth-index b

pub state_eq_refl : (s : WorkflowStateName) → state_eq s s ≡ true
unfolding state_eq
state_eq_refl s = ground (arith, eq_iff (unlisted s) (unlisted s))

-- `requireEnum("…", string(state), workflowStates)`
unfoldable pub require_state : String → WorkflowStateName → Check
unfolding require_enum
require_state field (WorkflowStateName.unknown t) = require_enum field t []
require_state field WorkflowStateName.unset = require_enum field "" []
require_state field _ = ok tt

unfoldable pub require_case_state : String → CaseState → Check
unfolding require_enum
require_case_state field (CaseState.unknown t) = require_enum field t []
require_case_state field CaseState.unset = require_enum field "" []
require_case_state field _ = ok tt

unfoldable pub case_state_for_workflow : WorkflowStateName → Result Error CaseState
case_state_for_workflow created = ok CaseState.new
case_state_for_workflow evidence_collected = ok CaseState.snapshotted
case_state_for_workflow analyzed = ok CaseState.diagnosed
case_state_for_workflow plan_proposed = ok CaseState.planned
case_state_for_workflow WorkflowStateName.awaiting_approval = ok CaseState.awaiting_approval
case_state_for_workflow approved = ok CaseState.planned
case_state_for_workflow backing_up = ok CaseState.planned
case_state_for_workflow ready_to_execute = ok CaseState.planned
case_state_for_workflow WorkflowStateName.executing = ok CaseState.executing
case_state_for_workflow WorkflowStateName.verifying = ok CaseState.verifying
case_state_for_workflow completed = ok CaseState.resolved
case_state_for_workflow WorkflowStateName.failed = ok CaseState.failed
case_state_for_workflow WorkflowStateName.rollback_required = ok CaseState.rollback_required
case_state_for_workflow rolling_back = ok CaseState.rollback_required
case_state_for_workflow WorkflowStateName.rolled_back = ok CaseState.rolled_back
case_state_for_workflow WorkflowStateName.cancelled = ok CaseState.cancelled
case_state_for_workflow WorkflowStateName.unset = err (errorf "unknown workflow state %q" ("" ∷ []))
case_state_for_workflow (WorkflowStateName.unknown t) =
    err (errorf "unknown workflow state %q" (t ∷ []))

-- `==` on case states.
case_index : CaseState → ℕ
case_index CaseState.new = 0
case_index discovering = 1
case_index snapshotted = 2
case_index diagnosing = 3
case_index diagnosed = 4
case_index planned = 5
case_index CaseState.awaiting_approval = 6
case_index CaseState.executing = 7
case_index CaseState.verifying = 8
case_index resolved = 9
case_index partially_resolved = 10
case_index blocked = 11
case_index escalated = 12
case_index CaseState.cancelled = 13
case_index CaseState.failed = 14
case_index CaseState.rollback_required = 15
case_index CaseState.rolled_back = 16
case_index data_preservation_required = 17
case_index CaseState.unset = 18
case_index (CaseState.unknown t) = 19

case_unlisted : CaseState → String
case_unlisted (CaseState.unknown t) = t
case_unlisted CaseState.new = ""
case_unlisted _ = ""

unfoldable pub case_state_eq : CaseState → CaseState → Bool
unfolding case_index case_unlisted
case_state_eq a b = eqb (case_index a) (case_index b) && case_unlisted a == case_unlisted b

pub case_state_eq_refl : (s : CaseState) → case_state_eq s s ≡ true
unfolding case_state_eq
case_state_eq_refl s = ground (arith, eq_iff (case_unlisted s) (case_unlisted s))

same_case_state : Result Error CaseState → CaseState → Bool
unfolding case_state_eq
same_case_state (ok want) case_state = case_state_eq want case_state
same_case_state (err e) case_state = false

unfoldable pub compatible_workflow_and_case_state : WorkflowStateName → CaseState → Bool
unfolding case_state_for_workflow same_case_state
compatible_workflow_and_case_state workflow case_state =
    same_case_state (case_state_for_workflow workflow) case_state

pub case_state_for_workflow-compatible :
    (w : WorkflowStateName) (c : CaseState)
    → case_state_for_workflow w ≡ ok c
    → compatible_workflow_and_case_state w c ≡ true
unfolding compatible_workflow_and_case_state
case_state_for_workflow-compatible w c h = ap (λ r. same_case_state r c) h ∙ case_state_eq_refl c

pub record WorkflowFailure : Type 0 where
  pub reason_code : String
  pub detail_code : String

unfoldable pub validate_failure : WorkflowFailure → Check
unfolding require_match re_reason_code
validate_failure f = do
  require_match "reason_code" f.reason_code re_reason_code
  if_set f.detail_code (require_match "detail_code" f.detail_code re_reason_code)

pub record CaseWorkflowState : Type 0 where
  pub schema_name : String
  pub schema_version : String
  pub case_id : String
  pub state : WorkflowStateName
  pub revision : ℕ  -- uint64
  pub updated_at : String
  pub last_transition_id : String
  pub active_plan_id : String
  pub active_execution_id : String
  pub failure : Option WorkflowFailure

validate_optional_failure : Option WorkflowFailure → Check
unfolding validate_failure
validate_optional_failure none = ok tt
validate_optional_failure (some f) = map_err (wrap "failure: %w" []) (validate_failure f)

unfoldable pub validate : CaseWorkflowState → Check
unfolding require_schema require_match require_state require_rfc3339 validate_optional_failure
    re_case_id re_coordinator_event_id re_plan_id re_execution_id
validate w = do
  require_schema w.schema_name w.schema_version "case-workflow-state"
  require_match "case_id" w.case_id re_case_id
  require_state "state" w.state
  guard (leb 1 w.revision) (errorf "revision must be >= 1" [])
  require_rfc3339 "updated_at" w.updated_at
  require_match "last_transition_id" w.last_transition_id re_coordinator_event_id
  if_set w.active_plan_id (require_match "active_plan_id" w.active_plan_id re_plan_id)
  if_set w.active_execution_id
      (require_match "active_execution_id" w.active_execution_id re_execution_id)
  validate_optional_failure w.failure
