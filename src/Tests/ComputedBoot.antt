-- ===== src/Tests/ComputedBoot.antt =====
-- The boot doctor on one machine, in the form that is computed.
use effexor_win_doctor.Prelude.{◌≡◌, true, false, ◌==◌, is_some, ok}
use effexor_win_doctor.BootDoctor.Codes.{boot_topology_consistent}
use effexor_win_doctor.BootDoctor.Example.{machine, input_on, digest}
use effexor_win_doctor.BootDoctor.Analyze.{kept_drafts, analyze}
use effexor_win_doctor.BootDoctor.Suppress.Kept.{found}
use effexor_win_doctor.Coordinator.Examples.{store, readings}
use effexor_win_doctor.Coordinator.Commands.BootAnalysis.{
  BootAnalysisRequest, commit_boot_doctor_analysis,
}
use effexor_win_doctor.Coordinator.Commands.BootAnalysis.Example.{
  machine_case, decode_machine, machine_request, commanded_request, analysis_by, result_by,
}

abbrev pub Analyses : BootAnalysisRequest → Type 0
Analyses q =
    commit_boot_doctor_analysis store decode_machine digest
      (readings 0 "cevt-000000000000000000000002") q machine_case
    ≡ ((analysis_by q).0, ok (result_by q))

pub record ComputedBoot : Type 0 where
  pub consistent : is_some (found (kept_drafts (input_on machine)) boot_topology_consistent) ≡ true
  pub findings : analyze digest (input_on machine) ≡ ok (result_by machine_request).findings
  pub ran : Analyses machine_request
  pub is_new : (result_by machine_request).idempotent ≡ false
  pub is_written : (result_by machine_request).case_view.commit_info.idempotent ≡ false
  pub commanded : Analyses commanded_request
  pub commanded_new : (result_by commanded_request).idempotent ≡ false
  pub commanded_written : (result_by commanded_request).case_view.commit_info.idempotent ≡ false
  pub commanded_moved :
      (result_by commanded_request).case_view.commit_info.commit_id
        == commanded_request.expected_commit_id
      ≡ false
