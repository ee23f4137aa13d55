-- ===== src/Tests/Coordination.antt =====
-- A case that is created, analysed and cancelled, and the coordinator's theorems on it.
use effexor_win_doctor.Prelude.{
  ◌≡◌, ◌≢◌, ◌↔◌, true, not, [], ◌∷◌, ◌&&◌, ◌==◌, ok, contains_string, no_repeats,
}
use effexor_win_doctor.Domain.Workflow.{evidence_collected, analyzed}
use effexor_win_doctor.Domain.Events.{deterministic_analyzer}
use effexor_win_doctor.Coordinator.Refs.{unique_refs}
use effexor_win_doctor.Coordinator.Refs.Members.{unique_refs_lem}
use effexor_win_doctor.Coordinator.Transitions.{validate_transition}
use effexor_win_doctor.Coordinator.Transitions.Permitted.{
  Permitted, validate_transition-iff-Permitted,
}
use effexor_win_doctor.Coordinator.Commands.Analysis.{next_analysis}
use effexor_win_doctor.Coordinator.Commands.Plan.{next_plan}
use effexor_win_doctor.Coordinator.Commands.Closing.{next_failure, next_cancellation}
use effexor_win_doctor.Coordinator.Commands.History.{Closed-takes_no_command}
use effexor_win_doctor.Coordinator.Commands.Concurrency.{Passed, run_command-Passed}
use effexor_win_doctor.Tests.Computed.{computed}
use effexor_win_doctor.Coordinator.Examples.{
  store, opened, analyze, second, third, analysis_request, plan_request, failure_request,
  case_request, created_view, analyzed_view, planned_case, cancelled_case,
}

run_command-Passed_example :
    Passed store opened analyze.0 "case-aaaaaaaaaaaaaaaaaaaaaaaa" "commit-000000000000000000000001"
      (next_analysis second analysis_request)
      analyzed_view
run_command-Passed_example =
    run_command-Passed store opened analyze.0 "case-aaaaaaaaaaaaaaaaaaaaaaaa"
      "commit-000000000000000000000001" (next_analysis second analysis_request) analyzed_view
      computed.ran

validate_transition-iff-Permitted_example :
    (validate_transition evidence_collected analyzed deterministic_analyzer 1 0 ≡ ok tt)
    ↔ Permitted evidence_collected analyzed deterministic_analyzer 1 0
validate_transition-iff-Permitted_example =
    validate_transition-iff-Permitted evidence_collected analyzed deterministic_analyzer 1 0

unique_refs_lem_example :
    (contains_string (unique_refs ("a" ∷ "" ∷ "b" ∷ "a" ∷ [])) "a"
      ≡ contains_string ("a" ∷ "" ∷ "b" ∷ "a" ∷ []) "a" && not ("a" == ""))
    × (no_repeats (unique_refs ("a" ∷ "" ∷ "b" ∷ "a" ∷ [])) ≡ true)
unique_refs_lem_example = unique_refs_lem ("a" ∷ "" ∷ "b" ∷ "a" ∷ []) "a"

Closed-takes_no_command_example :
    (next_analysis third analysis_request cancelled_case created_view.commit_info ≢ ok planned_case)
    × (next_plan third plan_request cancelled_case created_view.commit_info ≢ ok planned_case)
    × (next_failure third failure_request cancelled_case created_view.commit_info ≢ ok planned_case)
    × (next_cancellation third case_request cancelled_case created_view.commit_info
        ≢ ok planned_case)
Closed-takes_no_command_example =
    Closed-takes_no_command third cancelled_case created_view.commit_info planned_case
      analysis_request plan_request failure_request case_request computed.final
