-- ===== src/CaseStore/Snapshot/Transitions.antt =====
-- The revision model of internal/recovery/casestore/snapshot.go,
-- `validateWorkflowTransitionIntegrity` without its last two calls: each state-changing event
-- carries a revision; revisions are unique and are 1 up to the workflow's; each event continues the
-- one before it.
pub mod Revisions
use effexor_win_doctor.Prelude.{
  ℕ, zero, suc, String, ◌-◌, Bool, true, false, Option, none, some, List, [], ◌∷◌, ◌&&◌, not, ltb,
  eqb, ◌==◌, if◌then◌else◌, is_some, length, Result, ok, err, guard, ◌>>◌, itoa,
}
use effexor_win_doctor.Domain.Errors.{Error, Check}
use effexor_win_doctor.Domain.Time.{parse}
use effexor_win_doctor.Domain.Workflow.{WorkflowStateName, CaseWorkflowState, state_eq, state_text}
use effexor_win_doctor.Domain.Events.{
  CoordinatorEvent, CoordinatorEventType, ActorType, case_created, legacy_case_adopted,
  is_state_changing_coordinator_event_type, validate_pr17_coordinator_event_semantics,
}
use effexor_win_doctor.CaseStore.Snapshot.Sets.{invalid}

-- What a Go map gives for a missing key.
abbrev zero_event : CoordinatorEvent
zero_event = record {
  schema_name = "";
  schema_version = "";
  event_id = "";
  case_id = "";
  event_type = CoordinatorEventType.unset;
  actor_type = ActorType.unset;
  occurred_at = "";
  previous_state = WorkflowStateName.unset;
  next_state = WorkflowStateName.unset;
  expected_commit_id = "";
  workflow_revision = 0;
  referenced_document_ids = none;
  reason_code = "";
  command_id = "";
}

-- `byRev`: the list holds the state-changing events, the latest first.
unfoldable pub by_rev : List CoordinatorEvent → ℕ → Option CoordinatorEvent
by_rev [] rev = none
by_rev (e ∷ es) rev = if eqb e.workflow_revision rev then some e else by_rev es rev

-- `byID`: of two events with one id the later one is kept.
unfoldable pub by_id :
    List CoordinatorEvent → String → Option CoordinatorEvent → Option CoordinatorEvent
by_id [] id found = found
by_id (e ∷ es) id found = by_id es id (if e.event_id == id then some e else found)

abbrev pub at_rev : List CoordinatorEvent → ℕ → CoordinatorEvent
at_rev es rev = elim (by_rev es rev) [ none ↦ zero_event | some e ↦ e ]

-- The first loop: it gives `changing`, the latest first.
unfoldable pub collect_changing :
    List CoordinatorEvent → List CoordinatorEvent → Result Error (List CoordinatorEvent)
collect_changing changing [] = ok changing
collect_changing changing (e ∷ es) =
    let skipped = collect_changing changing es in
    let kept = collect_changing (e ∷ changing) es in
    if not (is_state_changing_coordinator_event_type e.event_type)
    then guard (eqb e.workflow_revision 0)
        (invalid "non-state-changing event %q must not set workflow_revision" (e.event_id ∷ []))
      >> skipped
    else guard (not (eqb e.workflow_revision 0))
        (invalid "state-changing event %q requires workflow_revision >= 1" (e.event_id ∷ []))
      >> (guard (not (is_some (by_rev changing e.workflow_revision)))
            (invalid "duplicate workflow_revision %d" (itoa e.workflow_revision ∷ []))
          >> (validate_pr17_coordinator_event_semantics e >> kept))

-- `for rev := 1; rev <= revision; rev++`: the number of rounds is counted down.
unfoldable pub check_contiguous : List CoordinatorEvent → ℕ → Check
check_contiguous es zero = ok tt
check_contiguous es (suc rev) =
    check_contiguous es rev
    >> guard (is_some (by_rev es (suc rev)))
        (invalid "missing workflow_revision %d in contiguous sequence 1..%d" (itoa (suc rev) ∷ []))

times_in_order : Option ℕ → Option ℕ → ℕ → Check
times_in_order none curr rev =
    err (invalid "workflow revision %d occurred_at: %v" (itoa (rev - 1) ∷ []))
times_in_order (some prev) none rev =
    err (invalid "workflow revision %d occurred_at: %v" (itoa rev ∷ []))
times_in_order (some prev) (some curr) rev = guard (not (ltb curr prev)) (
    invalid "workflow revision %d occurred_at %q precedes revision %d occurred_at %q"
      (itoa rev ∷ itoa (rev - 1) ∷ []))

-- `for rev := 2; rev <= revision; rev++`, over the times.
unfoldable pub check_times : List CoordinatorEvent → ℕ → Check
unfolding times_in_order
check_times es zero = ok tt
check_times es (suc zero) = ok tt
check_times es (suc (suc rev)) =
    check_times es (suc rev)
    >> times_in_order (parse (at_rev es (suc rev)).occurred_at)
        (parse (at_rev es (suc (suc rev))).occurred_at) (suc (suc rev))

-- The same loop over the states.
unfoldable pub check_chain : List CoordinatorEvent → ℕ → Check
check_chain es zero = ok tt
check_chain es (suc zero) = ok tt
check_chain es (suc (suc rev)) =
    check_chain es (suc rev)
    >> guard (state_eq (at_rev es (suc (suc rev))).previous_state (at_rev es (suc rev)).next_state)
        (invalid
          "workflow revision %d previous_state %q does not continue revision %d next_state %q"
          (itoa (suc (suc rev)) ∷ []))

is_first : CoordinatorEventType → Bool
is_first case_created = true
is_first legacy_case_adopted = true
is_first _ = false

last_rules : CaseWorkflowState → String → Option CoordinatorEvent → Check
last_rules ws case_id none =
    err (invalid "last_transition_id %q missing" (ws.last_transition_id ∷ []))
last_rules ws case_id (some last) = do
  guard (last.case_id == case_id) (invalid "last transition event case_id mismatch" [])
  guard (state_eq last.next_state ws.state) (
      invalid "last transition next_state %q != workflow state %q"
        (state_text last.next_state ∷ state_text ws.state ∷ []))
  guard (is_state_changing_coordinator_event_type last.event_type)
      (invalid "last_transition_id event type %q is not state-changing" [])

is_max : CaseWorkflowState → CoordinatorEvent → Option CoordinatorEvent → Bool
is_max ws top none = false
is_max ws top (some last) = last.event_id == top.event_id && eqb last.workflow_revision ws.revision

-- The checks after the first loop, up to those of the last event.
unfoldable pub check_revisions :
    CaseWorkflowState → String → List CoordinatorEvent → List CoordinatorEvent → Check
unfolding is_first last_rules is_max
check_revisions ws case_id events changing = do
  guard (eqb (length changing) ws.revision)
      (invalid "workflow revision %d != state-changing event count %d" (itoa ws.revision ∷ []))
  guard (not (eqb ws.revision 0)) (invalid "workflow present with revision 0" [])
  check_contiguous changing ws.revision
  check_times changing ws.revision
  last_rules ws case_id (by_id events ws.last_transition_id none)
  guard (is_first (at_rev changing 1).event_type)
      (invalid "workflow revision 1 must be case_created or legacy_case_adopted" [])
  check_chain changing ws.revision
  guard (is_max ws (at_rev changing ws.revision) (by_id events ws.last_transition_id none)) (
      invalid "last_transition_id %q is not the max workflow_revision event %q (revision %d)"
        (ws.last_transition_id ∷ []))
  guard (state_eq (at_rev changing ws.revision).next_state ws.state)
      (invalid "max workflow_revision next_state %q != workflow state %q" [])
