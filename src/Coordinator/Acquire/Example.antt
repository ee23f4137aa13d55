-- ===== src/Coordinator/Acquire/Example.antt =====
-- A case that takes one more bundle of evidence, for acquire.go of internal/recovery/coordinator.
use effexor_win_doctor.Prelude.{some, [], ◌∷◌, ◌++◌}
use effexor_win_doctor.Domain.Events.{system}
use effexor_win_doctor.Domain.Evidence.{EvidenceBundle}
use effexor_win_doctor.Domain.Records.{EvidenceAcquisitionRecord}
use effexor_win_doctor.CaseStore.Snapshot.{Snapshot}
use effexor_win_doctor.Coordinator.Acquire.{with_acquired}
use effexor_win_doctor.Coordinator.Examples.{created_view}

abbrev pub read_bundle : EvidenceBundle
read_bundle = record {
  schema_name = "evidence-bundle";
  schema_version = "1.0.0";
  evidence_id = "evidence-cccccccccccccccccccccccc";
  case_id = "case-aaaaaaaaaaaaaaaaaaaaaaaa";
  target_id = "target-volume-0001";
  collector = "read-operation";
  collector_version = "1.0.0";
  captured_at = "2026-07-29T12:00:00Z";
  source_status = "ok";
  facts_schema = "";
  facts = "{\"files\": []}";
  artifacts = some [];
  limitations = some [];
}

abbrev pub acquisition : EvidenceAcquisitionRecord
acquisition = record {
  schema_name = "evidence-acquisition-record";
  schema_version = "1.0.0";
  acquisition_id = "acq-111111111111111111111111";
  case_id = "case-aaaaaaaaaaaaaaaaaaaaaaaa";
  request_id = "acqreq-222222222222222222222222";
  source_commit_id = "commit-000000000000000000000001";
  producer_type = "read_operation";
  producer_id = "effexor-recovery-read-operation";
  producer_version = "1.0.0";
  actor_type = system;
  acquired_at = "2026-07-29T12:00:00Z";
  target_ids = some ("target-volume-0001" ∷ []);
  input_evidence_ids = some ("evidence-bbbbbbbbbbbbbbbbbbbbbbbb" ∷ []);
  added_target_ids = some [];
  added_evidence_ids = some ("evidence-cccccccccccccccccccccccc" ∷ []);
  parameters_sha256 = "0000000000000000000000000000000000000000000000000000000000000000";
  result_sha256 = "1111111111111111111111111111111111111111111111111111111111111111";
  limitations = some [];
}

abbrev pub acquired_case : Snapshot
acquired_case =
    with_acquired created_view.snapshot created_view.snapshot.targets
      (created_view.snapshot.evidence_bundles ++ read_bundle ∷ []) acquisition
