-- ===== src/Coordinator/Commands/Opening.antt =====
-- `CreateCase` and `AdoptLegacyCase`, internal/recovery/coordinator: create_case.go and
-- adopt_legacy.go, with `SnapshotFromImporterResult` of internal/recovery/casestore/snapshot.go.
-- The importer is the interface `LegacyImporter`.
use effexor_win_doctor.Prelude.{
  ℕ, none, List, [], ◌&&◌, not, is_empty, is_none, Result, ok, err, guard, map_err, ◌>>=◌, ◌>>◌,
}
use effexor_win_doctor.Domain.Errors.{Error}
use effexor_win_doctor.Domain.Workflow.{
  WorkflowStateName, created, evidence_collected, snapshotted, case_state_eq,
}
use effexor_win_doctor.Domain.Events.{case_created, legacy_case_adopted, system}
use effexor_win_doctor.Domain.Documents.{CaseManifest, Target}
use effexor_win_doctor.Domain.Evidence.{EvidenceBundle}
use effexor_win_doctor.CaseStore.Snapshot.{Snapshot}
use effexor_win_doctor.CaseStore.Types.{CommitInfo}
use effexor_win_doctor.Coordinator.{
  CommandError, invalid_argument, invalid_snapshot, legacy_adoption_rejected, Readings,
  CreateCaseRequest, CaseRequest, CaseView, Store,
}
use effexor_win_doctor.Coordinator.State.{EventFields, default_actor, default_reason}
use effexor_win_doctor.Coordinator.Refs.{create_or_adopt_refs}
use effexor_win_doctor.Coordinator.Access.{commit_first}
use effexor_win_doctor.Coordinator.Transitions.{validate_transition}
use effexor_win_doctor.Coordinator.Commands.{advance, run_command}

-- What the importer gives.
pub record ImportResult : Type 0 where
  pub manifest : CaseManifest
  pub targets : List Target
  pub evidence_bundles : List EvidenceBundle

unfoldable pub snapshot_from_importer_result : ImportResult → Snapshot
snapshot_from_importer_result i = record {
  manifest = i.manifest;
  targets = i.targets;
  evidence_bundles = i.evidence_bundles;
  findings = [];
  repair_plans = [];
  execution_events = [];
  verification_reports = [];
  workflow_state = none;
  coordinator_events = [];
  evidence_acquisitions = [];
  agent_consultations = [];
}

abbrev pub creation_fields : CreateCaseRequest → ImportResult → EventFields
creation_fields q result = record {
  case_id = result.manifest.case_id;
  event_type = case_created;
  actor = default_actor q.actor system;
  prev = created;
  next = evidence_collected;
  expected_commit_id = "";
  reason_code = default_reason q.reason_code "legacy_import_committed";
  command_id = q.command_id;
  revision = 1;
}

-- The actor of a creation is checked against the domain's rules for the event.
unfoldable pub first_snapshot :
    (List ℕ → Result Error ImportResult)
    → Readings
    → CreateCaseRequest
    → Result CommandError Snapshot
first_snapshot import_json r q =
    guard (not (is_empty q.diagnostic_report)) (invalid_argument "diagnostic report is required")
    >> (map_err invalid_snapshot (import_json q.diagnostic_report) >>= λ result.
        validate_transition created evidence_collected (default_actor q.actor system) 0 0
        >> advance r (creation_fields q result) none "" create_or_adopt_refs
            (snapshot_from_importer_result result))

created_from :
    {S : Type 0} → Store S → S → Result CommandError Snapshot → S × Result CommandError CaseView
created_from store s (err e) = (s, err e)
created_from store s (ok snap) = commit_first store s snap

unfoldable pub create_case :
    {S : Type 0}
    → Store S
    → (List ℕ → Result Error ImportResult)
    → Readings
    → CreateCaseRequest
    → S
    → S × Result CommandError CaseView
unfolding created_from
create_case store import_json r q s = created_from store s (first_snapshot import_json r q)

-- The conditions on the legacy snapshot.
unfoldable pub check_legacy : Snapshot → Result CommandError (Unit {0})
check_legacy snap = do
  guard (is_none snap.workflow_state) (legacy_adoption_rejected "workflow state already present")
  guard (is_empty snap.coordinator_events)
      (legacy_adoption_rejected "legacy snapshot contains coordinator events")
  guard
      (is_empty snap.findings
        && is_empty snap.repair_plans
        && is_empty snap.execution_events
        && is_empty snap.verification_reports)
      (legacy_adoption_rejected "legacy snapshot contains later lifecycle documents")
  guard (not (is_empty snap.targets) && not (is_empty snap.evidence_bundles))
      (legacy_adoption_rejected "legacy snapshot missing targets or evidence")
  guard (case_state_eq snap.manifest.current_state snapshotted)
      (legacy_adoption_rejected "legacy snapshot current_state must be SNAPSHOTTED")

-- The previous state of the event is unset from the start, as the source sets it again.
abbrev pub adoption_fields : CaseRequest → CommitInfo → EventFields
adoption_fields q info = record {
  case_id = q.case_id;
  event_type = legacy_case_adopted;
  actor = default_actor q.actor system;
  prev = WorkflowStateName.unset;
  next = evidence_collected;
  expected_commit_id = info.commit_id;
  reason_code = default_reason q.reason_code "legacy_case_adopted";
  command_id = q.command_id;
  revision = 1;
}

unfoldable pub next_adoption :
    Readings → CaseRequest → Snapshot → CommitInfo → Result CommandError Snapshot
next_adoption r q snap info =
    check_legacy snap >> advance r (adoption_fields q info) none "" create_or_adopt_refs snap

unfoldable pub adopt_legacy_case :
    {S : Type 0} → Store S → Readings → CaseRequest → S → S × Result CommandError CaseView
adopt_legacy_case store r q s =
    run_command store s q.case_id q.expected_commit_id (next_adoption r q)
