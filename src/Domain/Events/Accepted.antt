-- ===== src/Domain/Events/Accepted.antt =====
-- What `ValidatePR17CoordinatorEventSemantics` of internal/recovery/domain/coordinator_event_semantics.go
-- establishes of an event.
use effexor_win_doctor.Prelude.{ℕ, String, ◌≡◌, Bool, true, false, arith, eqb, leb, ok}
use effexor_win_doctor.Domain.Workflow.{}
use effexor_win_doctor.Domain.Events.{
  CoordinatorEvent, CoordinatorEventType, case_created, legacy_case_adopted, revision_rules,
  validate_pr17_coordinator_event_semantics, valid_pr17_transition_for_event,
  allowed_actor_for_pr17_event,
}

-- Does an event open a case's workflow?
pub opens : CoordinatorEventType → Bool
opens case_created = true
opens legacy_case_adopted = true
opens _ = false

revision_rules-first :
    (t : CoordinatorEventType) (revision : ℕ) (expected : String)
    → revision_rules t revision expected ≡ ok tt
    → (opens t ≡ eqb revision 1) × (leb 1 revision ≡ true)
unfolding revision_rules opens
revision_rules-first case_created revision expected h = (ground arith, ground arith)
revision_rules-first legacy_case_adopted revision expected h = (ground arith, ground arith)
revision_rules-first _ revision expected h = (ground arith, ground arith)

-- An accepted event has revision 1 exactly when it opens the workflow, else a greater one; its actor
-- may write it, and its states are a transition of its type.
pub accepted_event :
    (e : CoordinatorEvent)
    → validate_pr17_coordinator_event_semantics e ≡ ok tt
    → (opens e.event_type ≡ eqb e.workflow_revision 1)
      × (leb 1 e.workflow_revision ≡ true)
      × (allowed_actor_for_pr17_event e.event_type e.actor_type ≡ true)
      × (valid_pr17_transition_for_event e.event_type e.previous_state e.next_state ≡ true)
unfolding validate_pr17_coordinator_event_semantics
accepted_event e h =
    let rules : revision_rules e.event_type e.workflow_revision e.expected_commit_id ≡ ok tt =
      ground arith in
    let (first, least) =
      revision_rules-first e.event_type e.workflow_revision e.expected_commit_id rules in
    (first, least, ground arith, ground arith)
