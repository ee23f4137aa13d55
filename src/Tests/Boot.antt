-- ===== src/Tests/Boot.antt =====
-- The boot doctor on one machine, and on the same machine with its ESP on another disk.
use effexor_win_doctor.Prelude.{◌≡◌, ◌↔◌, true, false, none, ok, [], ◌∷◌, length}
use effexor_win_doctor.Domain.Patterns.{re_acquisition_request_id}
use effexor_win_doctor.BootDoctor.Codes.{boot_topology_consistent, boot_topology_incomplete}
use effexor_win_doctor.BootDoctor.Example.{
  machine, machine_targets, topology_evidence, input_on, digest,
}
use effexor_win_doctor.BootDoctor.Suppress.{Draft, Drafts, apply_suppression}
use effexor_win_doctor.BootDoctor.Suppress.Kept.{found, apply_suppression_lem}
use effexor_win_doctor.BootDoctor.Drafts.{collect_drafts}
use effexor_win_doctor.BootDoctor.Drafts.Catalogued.{catalogued, kept-catalogued}
use effexor_win_doctor.BootDoctor.Analyze.{kept_drafts}
use effexor_win_doctor.BootDoctor.Analyze.Grounded.{AllGrounded, analyze-AllGrounded}
use effexor_win_doctor.Coordinator.Examples.{store, readings}
use effexor_win_doctor.Coordinator.Acquire.RequestId.{validate_acquisition_request_id}
use effexor_win_doctor.Coordinator.Acquire.RequestId.Matches.{validate_acquisition_request_id_iff}
use effexor_win_doctor.Coordinator.Commands.BootAnalysis.Example.{
  machine_case, decode_machine, machine_request, analysis_by, result_by,
}
use effexor_win_doctor.Coordinator.Commands.BootAnalysis.Committed.{
  Completed, commit_boot_doctor_analysis-Completed,
}
use effexor_win_doctor.Tests.Computed.{computed}

commit_boot_doctor_analysis-Completed_example :
    Completed store decode_machine digest
      (readings 0 "cevt-000000000000000000000002")
      machine_case
      (analysis_by machine_request).0
      machine_request
      (result_by machine_request)
commit_boot_doctor_analysis-Completed_example =
    commit_boot_doctor_analysis-Completed store decode_machine digest
      (readings 0 "cevt-000000000000000000000002") machine_request machine_case
      (analysis_by machine_request).0 (result_by machine_request) computed.boot.ran

analyze-AllGrounded_example :
    AllGrounded (input_on machine) (result_by machine_request).findings
    × (length (result_by machine_request).findings ≡ length (kept_drafts (input_on machine)))
analyze-AllGrounded_example =
    analyze-AllGrounded digest (input_on machine) (result_by machine_request).findings
      computed.boot.findings

abbrev blank_draft : Draft
blank_draft = record { targets = []; evidence = []; extra_lim = []; insuff = false }

abbrev two_drafts : Drafts
two_drafts = (boot_topology_consistent, blank_draft) ∷ (boot_topology_incomplete, blank_draft) ∷ []

apply_suppression_lem_example : found (apply_suppression two_drafts) boot_topology_consistent ≡ none
unfolding effexor_win_doctor.BootDoctor.Suppress.Kept.is_victim
    effexor_win_doctor.BootDoctor.Suppress.victims_of
apply_suppression_lem_example = apply_suppression_lem two_drafts boot_topology_consistent

kept-catalogued_example :
    catalogued (apply_suppression (collect_drafts machine machine_targets topology_evidence)) ≡ true
kept-catalogued_example = kept-catalogued machine machine_targets topology_evidence

validate_acquisition_request_id_iff_example :
    (validate_acquisition_request_id "acqreq-ffffffffffffffffffffffff" ≡ ok tt)
    ↔ (re_acquisition_request_id "acqreq-ffffffffffffffffffffffff" ≡ true)
validate_acquisition_request_id_iff_example =
    validate_acquisition_request_id_iff "acqreq-ffffffffffffffffffffffff"
