-- ===== src/Coordinator/Commands/Analysis.antt =====
-- `CommitAnalysis` of internal/recovery/coordinator/commit_analysis.go.
use effexor_win_doctor.Prelude.{
  String, List, [], ◌∷◌, none, ◌==◌, if◌then◌else◌, length, Result, ◌>>=◌, ◌>>◌,
}
use effexor_win_doctor.Domain.Workflow.{analyzed}
use effexor_win_doctor.Domain.Events.{analysis_committed, deterministic_analyzer}
use effexor_win_doctor.Domain.Evidence.{Finding}
use effexor_win_doctor.CaseStore.Snapshot.{Snapshot}
use effexor_win_doctor.CaseStore.Types.{CommitInfo}
use effexor_win_doctor.Coordinator.{
  CommandError, Readings, CommitAnalysisRequest, CaseView, Store, current_state,
}
use effexor_win_doctor.Coordinator.State.{EventFields, default_actor, default_reason, next_revision}
use effexor_win_doctor.Coordinator.Refs.{analysis_refs}
use effexor_win_doctor.Coordinator.Merge.{merge_findings_append_only}
use effexor_win_doctor.Coordinator.Commands.{check_transition, active_plan, advance, run_command}

-- A finding without a case takes the request's.
unfoldable pub filled : String → List Finding → List Finding
filled case_id [] = []
filled case_id (f ∷ fs) =
    (if f.case_id == "" then record f { case_id = case_id } else f) ∷ filled case_id fs

-- The event that the command writes on a snapshot.
abbrev pub analysis_fields : CommitAnalysisRequest → Snapshot → CommitInfo → EventFields
analysis_fields q snap info = record {
  case_id = q.case_id;
  event_type = analysis_committed;
  actor = default_actor q.actor deterministic_analyzer;
  prev = current_state snap;
  next = analyzed;
  expected_commit_id = info.commit_id;
  reason_code = default_reason q.reason_code "analysis_committed";
  command_id = q.command_id;
  revision = next_revision snap;
}

unfoldable pub next_analysis :
    Readings → CommitAnalysisRequest → Snapshot → CommitInfo → Result CommandError Snapshot
unfolding filled
next_analysis r q snap info =
    check_transition q.case_id (current_state snap) analyzed
      (default_actor q.actor deterministic_analyzer) (length q.findings) (length snap.repair_plans)
    >> (merge_findings_append_only snap.findings (filled q.case_id q.findings) >>= λ merged.
        advance r (analysis_fields q snap info) none (active_plan snap)
          (λ moved. analysis_refs q.case_id (filled q.case_id q.findings))
          (record snap { findings = merged }))

unfoldable pub commit_analysis :
    {S : Type 0} → Store S → Readings → CommitAnalysisRequest → S → S × Result CommandError CaseView
commit_analysis store r q s = run_command store s q.case_id q.expected_commit_id (next_analysis r q)
