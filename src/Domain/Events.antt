-- ===== src/Domain/Events.antt =====
-- The coordinator's audit events, internal/recovery/domain: coordinator_event.go and
-- coordinator_event_semantics.go, the rules that the coordinator's writer and the case store's
-- reader share.
pub mod Accepted
use effexor_win_doctor.Prelude.{
  ℕ, String, Bool, true, false, Option, List, [], ◌∷◌, ◌&&◌, ◌||◌, not, leb, eqb, ◌==◌, ok, guard,
  ◌>>◌,
}
use effexor_win_doctor.Domain.Errors.{errorf, Check}
use effexor_win_doctor.Domain.Patterns.{
  re_case_id, re_coordinator_event_id, re_commit_id, re_reason_code, re_command_id,
}
use effexor_win_doctor.Domain.Checks.{
  require_enum, require_match, require_rfc3339, require_schema, require_present, if_set,
}
use effexor_win_doctor.Domain.Workflow.{
  WorkflowStateName, created, evidence_collected, analyzed, plan_proposed, state_eq, state_text,
  require_state,
}

pub data ActorType : Type 0 where
  system technician deterministic_analyzer llm_advisor policy executor verifier unset : ActorType
  unknown : String → ActorType

pub data CoordinatorEventType : Type 0 where
  case_created analysis_committed plan_committed case_failed : CoordinatorEventType
  case_cancelled legacy_case_adopted unset : CoordinatorEventType
  unknown : String → CoordinatorEventType

-- `string(actor)` and `string(eventType)`
unfoldable pub actor_text : ActorType → String
actor_text system = "system"
actor_text technician = "technician"
actor_text deterministic_analyzer = "deterministic_analyzer"
actor_text llm_advisor = "llm_advisor"
actor_text policy = "policy"
actor_text executor = "executor"
actor_text verifier = "verifier"
actor_text ActorType.unset = ""
actor_text (ActorType.unknown t) = t

unfoldable pub event_type_text : CoordinatorEventType → String
event_type_text case_created = "case_created"
event_type_text analysis_committed = "analysis_committed"
event_type_text plan_committed = "plan_committed"
event_type_text case_failed = "case_failed"
event_type_text case_cancelled = "case_cancelled"
event_type_text legacy_case_adopted = "legacy_case_adopted"
event_type_text CoordinatorEventType.unset = ""
event_type_text (CoordinatorEventType.unknown t) = t

unfoldable pub require_actor : String → ActorType → Check
unfolding require_enum
require_actor field (ActorType.unknown t) = require_enum field t []
require_actor field ActorType.unset = require_enum field "" []
require_actor field _ = ok tt

unfoldable pub require_event_type : String → CoordinatorEventType → Check
unfolding require_enum
require_event_type field (CoordinatorEventType.unknown t) = require_enum field t []
require_event_type field CoordinatorEventType.unset = require_enum field "" []
require_event_type field _ = ok tt

abbrev pub document_id_case_workflow_state : String
document_id_case_workflow_state = "case-workflow-state"

pub record CoordinatorEvent : Type 0 where
  pub schema_name : String
  pub schema_version : String
  pub event_id : String
  pub case_id : String
  pub event_type : CoordinatorEventType
  pub actor_type : ActorType
  pub occurred_at : String
  pub previous_state : WorkflowStateName
  pub next_state : WorkflowStateName
  pub expected_commit_id : String
  pub workflow_revision : ℕ  -- uint64
  pub referenced_document_ids : Option (List String)
  pub reason_code : String
  pub command_id : String

-- A state that is set must be listed.
abbrev if_state_set : WorkflowStateName → Check → Check
if_state_set WorkflowStateName.unset check = ok tt
if_state_set _ check = check

unfoldable pub validate : CoordinatorEvent → Check
unfolding event_type_text require_schema require_match require_event_type require_actor
    require_rfc3339 require_state require_present re_coordinator_event_id re_case_id re_commit_id
    re_reason_code re_command_id
validate e = do
  require_schema e.schema_name e.schema_version "coordinator-event"
  require_match "event_id" e.event_id re_coordinator_event_id
  require_match "case_id" e.case_id re_case_id
  require_event_type "event_type" e.event_type
  require_actor "actor_type" e.actor_type
  require_rfc3339 "occurred_at" e.occurred_at
  if_state_set e.previous_state (require_state "previous_state" e.previous_state)
  if_state_set e.next_state (require_state "next_state" e.next_state)
  if_set e.expected_commit_id (require_match "expected_commit_id" e.expected_commit_id re_commit_id)
  guard (not (eqb e.workflow_revision 0)) (
      errorf "workflow_revision is required and must be >= 1 for state-changing event %q"
        (event_type_text e.event_type ∷ []))
  require_present "referenced_document_ids" e.referenced_document_ids
  require_match "reason_code" e.reason_code re_reason_code
  if_set e.command_id (require_match "command_id" e.command_id re_command_id)

unfoldable pub is_pr17_allowed_actor : ActorType → Bool
is_pr17_allowed_actor system = true
is_pr17_allowed_actor technician = true
is_pr17_allowed_actor deterministic_analyzer = true
is_pr17_allowed_actor _ = false

unfoldable pub is_state_changing_coordinator_event_type : CoordinatorEventType → Bool
is_state_changing_coordinator_event_type case_created = true
is_state_changing_coordinator_event_type legacy_case_adopted = true
is_state_changing_coordinator_event_type analysis_committed = true
is_state_changing_coordinator_event_type plan_committed = true
is_state_changing_coordinator_event_type case_failed = true
is_state_changing_coordinator_event_type case_cancelled = true
is_state_changing_coordinator_event_type _ = false

is_system : ActorType → Bool
is_system system = true
is_system _ = false

is_technician : ActorType → Bool
is_technician technician = true
is_technician _ = false

is_analyzer : ActorType → Bool
is_analyzer deterministic_analyzer = true
is_analyzer _ = false

unfoldable pub allowed_actor_for_pr17_event : CoordinatorEventType → ActorType → Bool
unfolding is_pr17_allowed_actor is_system is_technician is_analyzer
allowed_actor_for_pr17_event case_created actor = is_system actor || is_technician actor
allowed_actor_for_pr17_event legacy_case_adopted actor = is_system actor || is_technician actor
allowed_actor_for_pr17_event analysis_committed actor = is_system actor || is_analyzer actor
allowed_actor_for_pr17_event plan_committed actor =
    is_system actor || is_technician actor || is_analyzer actor
allowed_actor_for_pr17_event case_failed actor = is_pr17_allowed_actor actor
allowed_actor_for_pr17_event case_cancelled actor = is_pr17_allowed_actor actor
allowed_actor_for_pr17_event _ actor = false

abbrev pub is_open : WorkflowStateName → Bool
is_open prev =
    state_eq prev evidence_collected || state_eq prev analyzed || state_eq prev plan_proposed

unfoldable pub valid_pr17_transition_for_event :
    CoordinatorEventType → WorkflowStateName → WorkflowStateName → Bool
unfolding state_eq
valid_pr17_transition_for_event case_created prev next =
    state_eq prev created && state_eq next evidence_collected
valid_pr17_transition_for_event legacy_case_adopted prev next =
    state_eq prev WorkflowStateName.unset && state_eq next evidence_collected
valid_pr17_transition_for_event analysis_committed prev next =
    (state_eq prev evidence_collected && state_eq next analyzed)
    || (state_eq prev analyzed && state_eq next analyzed)
valid_pr17_transition_for_event plan_committed prev next =
    state_eq prev analyzed && state_eq next plan_proposed
valid_pr17_transition_for_event case_failed prev next =
    is_open prev && state_eq next WorkflowStateName.failed
valid_pr17_transition_for_event case_cancelled prev next =
    is_open prev && state_eq next WorkflowStateName.cancelled
valid_pr17_transition_for_event _ prev next = false

-- The revision and the expected commit that each event type wants.
unfoldable pub revision_rules : CoordinatorEventType → ℕ → String → Check
unfolding event_type_text
revision_rules case_created revision expected = do
  guard (eqb revision 1) (errorf "case_created must use workflow_revision 1" [])
  guard (expected == "") (errorf "case_created must not set expected_commit_id" [])
revision_rules legacy_case_adopted revision expected = do
  guard (eqb revision 1) (errorf "legacy_case_adopted must use workflow_revision 1" [])
  guard (not (expected == "")) (errorf "legacy_case_adopted must set expected_commit_id" [])
revision_rules event_type revision expected = do
  guard (not (leb revision 1))
      (errorf "event_type %q requires workflow_revision > 1" (event_type_text event_type ∷ []))
  guard (not (expected == ""))
      (errorf "event_type %q requires expected_commit_id" (event_type_text event_type ∷ []))

unfoldable pub validate_pr17_coordinator_event_semantics : CoordinatorEvent → Check
unfolding is_state_changing_coordinator_event_type is_pr17_allowed_actor actor_text event_type_text
    state_text
validate_pr17_coordinator_event_semantics e = do
  validate e
  guard (is_state_changing_coordinator_event_type e.event_type)
      (errorf "event_type %q is not implemented in PR #17" (event_type_text e.event_type ∷ []))
  guard (is_pr17_allowed_actor e.actor_type)
      (errorf "actor_type %q is not permitted in PR #17" (actor_text e.actor_type ∷ []))
  guard (allowed_actor_for_pr17_event e.event_type e.actor_type) (
      errorf "actor_type %q may not emit event_type %q"
        (actor_text e.actor_type ∷ event_type_text e.event_type ∷ []))
  guard (valid_pr17_transition_for_event e.event_type e.previous_state e.next_state) (
      errorf "event_type %q has invalid transition %q -> %q"
        (event_type_text e.event_type ∷ state_text e.previous_state ∷ state_text e.next_state ∷ []))
  revision_rules e.event_type e.workflow_revision e.expected_commit_id
