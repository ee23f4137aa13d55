-- ===== src/Coordinator/Commands/BootAnalysis/Example.antt =====
-- A case that opens with the evidence of a boot topology, for bootdoctor.go of
-- internal/recovery/coordinator.
use effexor_win_doctor.Prelude.{ℕ, String, true, Option, some, List, [], ◌∷◌, Result, ok, err}
use effexor_win_doctor.Domain.Errors.{Error}
use effexor_win_doctor.Domain.Events.{ActorType}
use effexor_win_doctor.Domain.Evidence.{EvidenceBundle}
use effexor_win_doctor.Domain.Topology.{WindowsBootTopology}
use effexor_win_doctor.BootDoctor.Example.{
  machine, machine_targets, machine_target_ids, topology_evidence, digest,
}
use effexor_win_doctor.Coordinator.{CommandError}
use effexor_win_doctor.Coordinator.ChainStore.{Chains}
use effexor_win_doctor.Coordinator.Examples.{
  case_manifest, bundle, blank_view, readings, create_request, store, no_cases,
}
use effexor_win_doctor.Coordinator.Commands.Opening.{ImportResult, create_case}
use effexor_win_doctor.Coordinator.Commands.BootAnalysis.{
  BootAnalysisRequest, BootAnalysisResult, commit_boot_doctor_analysis,
}

abbrev topology_bundle : EvidenceBundle
topology_bundle = record bundle {
  evidence_id = topology_evidence;
  target_id = "target-windows-0001";
  facts_schema = "windows-boot-topology";
  facts = "{}";
}

abbrev machine_import : List ℕ → Result Error ImportResult
machine_import raw = ok record {
  manifest = record case_manifest { target_ids = some machine_target_ids };
  targets = machine_targets;
  evidence_bundles = topology_bundle ∷ [];
}

abbrev pub machine_case : Chains
machine_case =
    (create_case store machine_import (readings 0 "cevt-000000000000000000000001") create_request
      no_cases).0

-- The decoder of a test: every text is the machine's topology.
abbrev pub decode_machine : String → Option WindowsBootTopology
decode_machine facts = some machine

abbrev pub machine_request : BootAnalysisRequest
machine_request = record {
  case_id = "case-aaaaaaaaaaaaaaaaaaaaaaaa";
  expected_commit_id = "commit-000000000000000000000001";
  request_id = "acqreq-ffffffffffffffffffffffff";
  topology_evidence_id = "";
  actor = ActorType.unset;
  reason_code = "";
  command_id = "";
}

-- The same request with a command id of its own.
abbrev pub commanded_request : BootAnalysisRequest
commanded_request = record machine_request { command_id = "acqreq-eeeeeeeeeeeeeeeeeeeeeeee" }

abbrev pub analysis_by : BootAnalysisRequest → Chains × Result CommandError BootAnalysisResult
analysis_by q =
    commit_boot_doctor_analysis store decode_machine digest
      (readings 0 "cevt-000000000000000000000002") q machine_case

abbrev machine_result : Result CommandError BootAnalysisResult → BootAnalysisResult
machine_result (ok result) = result
machine_result (err e) = record {
  case_view = blank_view;
  findings = [];
  topology = machine;
  idempotent = true;
}

abbrev pub result_by : BootAnalysisRequest → BootAnalysisResult
result_by q = machine_result (analysis_by q).1
