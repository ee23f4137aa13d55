-- ===== src/Tests/Documents.antt =====
-- The domain's rules on concrete documents.
use effexor_win_doctor.Prelude.{
  String, ◌≡◌, refl, true, some, List, [], ◌∷◌, ok, eqb, leb, is_some, elems, all, no_repeats,
  trim_space,
}
use effexor_win_doctor.Domain.Patterns.{re_finding_id}
use effexor_win_doctor.Domain.Checks.{require_unique_id_list, require_match, require_non_empty}
use effexor_win_doctor.Domain.Checks.UniqueLists.{require_unique_id_list_lem}
use effexor_win_doctor.Domain.Events.{
  CoordinatorEvent, allowed_actor_for_pr17_event, valid_pr17_transition_for_event,
}
use effexor_win_doctor.Domain.Events.Accepted.{opens, accepted_event}
use effexor_win_doctor.Domain.Plans.Order.{Ordered, validate_plan-Ordered}
use effexor_win_doctor.CaseStore.Snapshot.Transitions.{at_rev}
use effexor_win_doctor.Coordinator.Commands.Plan.{filled_plan}
use effexor_win_doctor.Tests.Computed.{computed}
use effexor_win_doctor.Coordinator.Examples.{analyzed_view, repair_plan}

abbrev analysis_event : CoordinatorEvent
analysis_event = at_rev analyzed_view.snapshot.coordinator_events 2

accepted_event_example :
    (opens analysis_event.event_type ≡ eqb analysis_event.workflow_revision 1)
    × (leb 1 analysis_event.workflow_revision ≡ true)
    × (allowed_actor_for_pr17_event analysis_event.event_type analysis_event.actor_type ≡ true)
    × (valid_pr17_transition_for_event analysis_event.event_type analysis_event.previous_state
          analysis_event.next_state
        ≡ true)
accepted_event_example = accepted_event analysis_event computed.event_valid

validate_plan-Ordered_example :
    Ordered [] (elems (filled_plan "case-aaaaaaaaaaaaaaaaaaaaaaaa" repair_plan).steps)
validate_plan-Ordered_example =
    validate_plan-Ordered (filled_plan "case-aaaaaaaaaaaaaaaaaaaaaaaa" repair_plan)
      computed.plan_valid

abbrev two_findings : List String
two_findings = "finding-cccccccccccccccccccccccc" ∷ "finding-dddddddddddddddddddddddd" ∷ []

unique_list_test : require_unique_id_list "finding_refs" (some two_findings) re_finding_id ≡ ok tt
unfolding require_unique_id_list require_match require_non_empty re_finding_id trim_space
unique_list_test = refl

require_unique_id_list_lem_example :
    (is_some (some two_findings) ≡ true)
    × (no_repeats (elems (some two_findings)) ≡ true)
    × (all re_finding_id (elems (some two_findings)) ≡ true)
require_unique_id_list_lem_example =
    require_unique_id_list_lem "finding_refs" (some two_findings) re_finding_id unique_list_test
