-- ===== src/Coordinator/Commands/Consultation/Example.antt =====
-- A consultation on an analysed case, for consultation.go of internal/recovery/coordinator.
use effexor_win_doctor.Prelude.{String, pos, true, false, some, [], ◌∷◌, Result, ok, err}
use effexor_win_doctor.Domain.Events.{ActorType}
use effexor_win_doctor.Domain.Consultations.{AgentConsultation}
use effexor_win_doctor.BootDoctor.Example.{digest}
use effexor_win_doctor.Coordinator.{CommandError}
use effexor_win_doctor.Coordinator.ChainStore.{Chains}
use effexor_win_doctor.Coordinator.Examples.{analyze, blank_view, store}
use effexor_win_doctor.Coordinator.Commands.Consultation.{
  ConsultationRequest, ConsultationResult, commit_agent_consultation,
}

-- The source commit is given.
abbrev consultation_from : String → AgentConsultation
consultation_from source = record {
  schema_name = "agent-consultation";
  schema_version = "1.0.0";
  consultation_id = "";
  case_id = "";
  request_id = "";
  runtime_id = "agent-runtime";
  runtime_version = "1.0.0";
  source_commit_id = source;
  input_digest = digest "";
  generated_at = "2026-07-29T12:00:00Z";
  status = "completed";
  round_count = pos 1;
  topology_id = "";
  finding_refs = some ("finding-cccccccccccccccccccccccc" ∷ []);
  evidence_refs = some [];
  target_refs = some [];
  hypotheses = some (
      record {
        hypothesis_id = "hyp-777777777777777777777777";
        code = "boot_files_missing";
        title = "The boot files were deleted";
        rationale = "The finding names no boot manager.";
        confidence = "medium";
        supporting_finding_refs = some ("finding-cccccccccccccccccccccccc" ∷ []);
        supporting_evidence_refs = some [];
        contradicting_evidence_refs = some [];
        limitations = some [];
        advisory = true;
      }
      ∷ []);
  next_diagnostic_steps = some [];
  retrieved_sources = some [];
  limitations = some ("advisory" ∷ []);
  provider_metadata = record { provider_name = "local"; model_name = "" };
  insufficient_evidence = false;
}

abbrev pub consult_from : String → ConsultationRequest
consult_from source = record {
  case_id = "case-aaaaaaaaaaaaaaaaaaaaaaaa";
  expected_commit_id = "commit-000000000000000000000002";
  request_id = "creq-888888888888888888888888";
  consultation = consultation_from source;
  actor = ActorType.unset;
}

-- A consultation that names its source commit, and one that does not.
abbrev pub named_request : ConsultationRequest
named_request = consult_from "commit-000000000000000000000002"

abbrev pub unnamed_request : ConsultationRequest
unnamed_request = consult_from ""

abbrev pub consulted_by : ConsultationRequest → Chains × Result CommandError ConsultationResult
consulted_by q = commit_agent_consultation store digest q analyze.0

abbrev pub consultation_result : Result CommandError ConsultationResult → ConsultationResult
consultation_result (ok result) = result
consultation_result (err e) = record {
  case_view = blank_view;
  consultation = consultation_from "";
  idempotent = true;
}
