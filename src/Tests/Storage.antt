-- ===== src/Tests/Storage.antt =====
-- The case store's theorems on the chain of a concrete case.
use effexor_win_doctor.Prelude.{
  String, ◌≡◌, ◌⊎◌, refl, true, List, [], ◌∷◌, ◌++◌, ◌==◌, ok, arith, is_empty, length,
}
use effexor_win_doctor.Domain.Workflow.{compatible_workflow_and_case_state}
use effexor_win_doctor.Domain.Events.{CoordinatorEvent}
use effexor_win_doctor.CaseStore.Types.{CommitRequest}
use effexor_win_doctor.CaseStore.Chain.{CommitRecord, head_of, actual, record_after, repeats}
use effexor_win_doctor.CaseStore.Chain.Runs.{
  Sound, commits, commits-Sound, commit_on_parent, commit_absent,
}
use effexor_win_doctor.CaseStore.Snapshot.Transitions.{collect_changing}
use effexor_win_doctor.CaseStore.Snapshot.Transitions.Revisions.{Continuous}
use effexor_win_doctor.CaseStore.Snapshot.Validation.Parts.{valid_history}
use effexor_win_doctor.Tests.Computed.{computed}
use effexor_win_doctor.Coordinator.Examples.{
  opened, planned_case, workflow_of, hashes, head_request, first_request, grown_chain, first_chain,
  info_or,
}

valid_history_example :
    (changing : List CoordinatorEvent) × (collect_changing [] planned_case.coordinator_events
      ≡ ok changing)
    × Continuous (workflow_of planned_case.workflow_state) changing
    × (compatible_workflow_and_case_state
          (workflow_of planned_case.workflow_state).state
          planned_case.manifest.current_state
        ≡ true)
valid_history_example =
    valid_history planned_case (workflow_of planned_case.workflow_state) computed.workflow
      computed.valid

abbrev two_commits : List (String × CommitRequest)
two_commits = ("2026-07-29T12:00:00Z", first_request) ∷ ("2026-07-29T12:00:01Z", head_request) ∷ []

commits-Sound_example : Sound 2 (commits hashes [] two_commits)
commits-Sound_example = commits-Sound hashes two_commits (omega arith)

commit_on_parent_example :
    ((grown_chain.0 ≡ opened "case-aaaaaaaaaaaaaaaaaaaaaaaa")
      × (repeats hashes (head_of (opened "case-aaaaaaaaaaaaaaaaaaaaaaaa")) head_request ≡ true))
    ⊎ ((actual (head_of (opened "case-aaaaaaaaaaaaaaaaaaaaaaaa"))
            == "commit-000000000000000000000001"
          ≡ true)
        × (grown_chain.0
            ≡ opened "case-aaaaaaaaaaaaaaaaaaaaaaaa"
              ++ record_after hashes "2026-07-29T12:00:00Z"
                  (head_of (opened "case-aaaaaaaaaaaaaaaaaaaaaaaa"))
                  head_request
                ∷ []))
commit_on_parent_example =
    commit_on_parent hashes "2026-07-29T12:00:00Z" "commit-000000000000000000000001"
      (opened "case-aaaaaaaaaaaaaaaaaaaaaaaa") grown_chain.0 head_request (info_or grown_chain.1)
      refl computed.grown

abbrev no_records : List CommitRecord
no_records = []

commit_absent_example : (is_empty no_records ≡ true) × (length first_chain.0 ≡ 1)
commit_absent_example =
    commit_absent hashes "2026-07-29T12:00:00Z" [] first_chain.0 first_request
      (info_or first_chain.1) refl computed.first
