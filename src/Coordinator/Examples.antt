-- ===== src/Coordinator/Examples.antt =====
-- A case that runs through the commands on concrete documents.
use effexor_win_doctor.Prelude.{
  ℕ, String, true, false, not, if◌then◌else◌, is_empty, eqb, Option, none, some, List, [], ◌∷◌,
  ◌++◌, Result, ok, err,
}
use effexor_win_doctor.Domain.Errors.{Error}
use effexor_win_doctor.Domain.Workflow.{
  WorkflowStateName, CaseWorkflowState, snapshotted, diagnosed, created, evidence_collected,
  analyzed, plan_proposed, planned,
}
use effexor_win_doctor.Domain.Events.{
  ActorType, technician, system, deterministic_analyzer, case_created, analysis_committed,
  plan_committed,
}
use effexor_win_doctor.Domain.Documents.{CaseManifest, Target}
use effexor_win_doctor.Domain.Evidence.{EvidenceBundle, Finding}
use effexor_win_doctor.Domain.Plans.{RepairPlan}
use effexor_win_doctor.CaseStore.Snapshot.{Snapshot}
use effexor_win_doctor.CaseStore.Types.{
  StoreError, CommitInfo, CommitRequest, ParentExpectation, case_snapshot, legacy_import,
}
use effexor_win_doctor.CaseStore.Chain.{CommitRecord, Hashes, commit_locked}
use effexor_win_doctor.Coordinator.{
  CommandError, Readings, CreateCaseRequest, CommitAnalysisRequest, CommitPlanRequest,
  FailCaseRequest, CaseRequest, CaseView, Store,
}
use effexor_win_doctor.Coordinator.ChainStore.{Chains, chain_store}
use effexor_win_doctor.Coordinator.Commands.Opening.{
  ImportResult, next_adoption, snapshot_from_importer_result, create_case, first_snapshot,
}
use effexor_win_doctor.Coordinator.Commands.Closing.{next_failure, next_cancellation}
use effexor_win_doctor.Coordinator.Commands.Analysis.{commit_analysis}

abbrev pub case_manifest : CaseManifest
case_manifest = record {
  schema_name = "case-manifest";
  schema_version = "1.0.0";
  case_id = "case-aaaaaaaaaaaaaaaaaaaaaaaa";
  created_at = "2026-07-29T12:00:00Z";
  updated_at = "2026-07-29T12:00:00Z";
  runtime = "winpe";
  current_state = snapshotted;
  target_ids = some ("target-volume-0001" ∷ []);
  privacy_class = "standard";
  technician_storage_reference = "";
}

abbrev pub volume : Target
volume = record {
  schema_name = "target";
  schema_version = "1.0.0";
  target_id = "target-volume-0001";
  target_type = "volume";
  discovered_at = "2026-07-29T12:00:00Z";
  display_name = "Windows volume";
  stable_identity = some (("volume_guid", "6a1f") ∷ []);
  runtime_locators = some [];
  capabilities = some [];
  limitations = some [];
}

abbrev pub bundle : EvidenceBundle
bundle = record {
  schema_name = "evidence-bundle";
  schema_version = "1.0.0";
  evidence_id = "evidence-bbbbbbbbbbbbbbbbbbbbbbbb";
  case_id = "case-aaaaaaaaaaaaaaaaaaaaaaaa";
  target_id = "target-volume-0001";
  collector = "legacy";
  collector_version = "1.3.0";
  captured_at = "2026-07-29T12:00:00Z";
  source_status = "ok";
  facts_schema = "";
  facts = "{\"free\": 12}";
  artifacts = some [];
  limitations = some [];
}

abbrev pub imported : ImportResult
imported = record {
  manifest = case_manifest;
  targets = volume ∷ [];
  evidence_bundles = bundle ∷ [];
}

abbrev pub import_sample : List ℕ → Result Error ImportResult
import_sample raw = ok imported

abbrev pub readings : ℕ → String → Readings
readings t id = record { event_time = t; workflow_time = t; event_id = ok id }

abbrev pub create_request : CreateCaseRequest
create_request = record {
  diagnostic_report = 123 ∷ 125 ∷ [];
  command_id = "";
  actor = ActorType.unset;
  reason_code = "";
}

abbrev pub created_snapshot : Result CommandError Snapshot
created_snapshot =
    first_snapshot import_sample (readings 0 "cevt-000000000000000000000001") create_request

-- Ids that tell commits and snapshots of one case apart: by their number, and by their documents.
abbrev pub hashes : Hashes
hashes = record {
  snapshot_id_of = λ s.
      if not (is_empty s.agent_consultations)
      then "snapshot-000000000000000000000004"
      else if is_empty s.findings
      then "snapshot-000000000000000000000001"
      else if is_empty s.repair_plans
      then "snapshot-000000000000000000000002"
      else "snapshot-000000000000000000000003";
  commit_id_of = λ case_id n parent snapshot_id at reason.
      if eqb n 1
      then "commit-000000000000000000000001"
      else if eqb n 2
      then "commit-000000000000000000000002"
      else "commit-000000000000000000000003";
}

abbrev pub store : Store Chains
store = chain_store hashes "2026-07-29T12:00:00Z"

abbrev pub no_cases : Chains
no_cases id = []

abbrev pub opened : Chains
opened =
    (create_case store import_sample (readings 0 "cevt-000000000000000000000001") create_request
      no_cases).0

abbrev pub finding : Finding
finding = record {
  schema_name = "finding";
  schema_version = "1.0.0";
  finding_id = "finding-cccccccccccccccccccccccc";
  case_id = "";
  severity = "high";
  confidence = "medium";
  title = "Boot files are missing";
  rationale = "The volume holds no boot manager.";
  evidence_refs = some ("evidence-bbbbbbbbbbbbbbbbbbbbbbbb" ∷ []);
  affected_target_ids = some ("target-volume-0001" ∷ []);
  recommended_workflows = some [];
  limitations = some [];
  insufficient_evidence = false;
}

abbrev pub analysis_request : CommitAnalysisRequest
analysis_request = record {
  case_id = "case-aaaaaaaaaaaaaaaaaaaaaaaa";
  expected_commit_id = "commit-000000000000000000000001";
  findings = finding ∷ [];
  actor = ActorType.unset;
  reason_code = "";
  command_id = "";
}

abbrev pub analyze : Chains × Result CommandError CaseView
analyze = commit_analysis store (readings 0 "cevt-000000000000000000000002") analysis_request opened

abbrev pub analyzed_twice : Chains × Result CommandError CaseView
analyzed_twice =
    commit_analysis store (readings 0 "cevt-000000000000000000000003") analysis_request analyze.0

-- The views that the two commands return.
abbrev pub blank_view : CaseView
blank_view = record {
  snapshot = snapshot_from_importer_result imported;
  commit_info = record {
    case_id = "";
    snapshot_id = "";
    commit_id = "";
    sequence = 0;
    parent_commit_id = "";
    committed_at = "";
    idempotent = false;
    durability_warnings = [];
  };
  state = WorkflowStateName.unset;
}

abbrev pub view_of : Result CommandError CaseView → CaseView
view_of (ok view) = view
view_of (err e) = blank_view

abbrev pub created_view : CaseView
created_view = record {
  snapshot = record {
    manifest = record {
      schema_name = "case-manifest";
      schema_version = "1.0.0";
      case_id = "case-aaaaaaaaaaaaaaaaaaaaaaaa";
      created_at = "2026-07-29T12:00:00Z";
      updated_at = "2026-07-29T12:00:00Z";
      runtime = "winpe";
      current_state = snapshotted;
      target_ids = some ("target-volume-0001" ∷ []);
      privacy_class = "standard";
      technician_storage_reference = "";
    };
    targets =
        record {
          schema_name = "target";
          schema_version = "1.0.0";
          target_id = "target-volume-0001";
          target_type = "volume";
          discovered_at = "2026-07-29T12:00:00Z";
          display_name = "Windows volume";
          stable_identity = some (("volume_guid", "6a1f") ∷ []);
          runtime_locators = some [];
          capabilities = some [];
          limitations = some [];
        }
        ∷ [];
    evidence_bundles =
        record {
          schema_name = "evidence-bundle";
          schema_version = "1.0.0";
          evidence_id = "evidence-bbbbbbbbbbbbbbbbbbbbbbbb";
          case_id = "case-aaaaaaaaaaaaaaaaaaaaaaaa";
          target_id = "target-volume-0001";
          collector = "legacy";
          collector_version = "1.3.0";
          captured_at = "2026-07-29T12:00:00Z";
          source_status = "ok";
          facts_schema = "";
          facts = "{\"free\": 12}";
          artifacts = some [];
          limitations = some [];
        }
        ∷ [];
    findings = [];
    repair_plans = [];
    execution_events = [];
    verification_reports = [];
    workflow_state = some record {
      schema_name = "case-workflow-state";
      schema_version = "1.0.0";
      case_id = "case-aaaaaaaaaaaaaaaaaaaaaaaa";
      state = evidence_collected;
      revision = 1;
      updated_at = "2026-07-29T12:00:00Z";
      last_transition_id = "cevt-000000000000000000000001";
      active_plan_id = "";
      active_execution_id = "";
      failure = none;
    };
    coordinator_events =
        record {
          schema_name = "coordinator-event";
          schema_version = "1.0.0";
          event_id = "cevt-000000000000000000000001";
          case_id = "case-aaaaaaaaaaaaaaaaaaaaaaaa";
          event_type = case_created;
          actor_type = system;
          occurred_at = "2026-07-29T12:00:00Z";
          previous_state = created;
          next_state = evidence_collected;
          expected_commit_id = "";
          workflow_revision = 1;
          referenced_document_ids = some (
              "case-aaaaaaaaaaaaaaaaaaaaaaaa" ∷ "target-volume-0001"
              ∷ "evidence-bbbbbbbbbbbbbbbbbbbbbbbb" ∷ "case-workflow-state" ∷ []);
          reason_code = "legacy_import_committed";
          command_id = "";
        }
        ∷ [];
    evidence_acquisitions = [];
    agent_consultations = [];
  };
  commit_info = record {
    case_id = "case-aaaaaaaaaaaaaaaaaaaaaaaa";
    snapshot_id = "snapshot-000000000000000000000001";
    commit_id = "commit-000000000000000000000001";
    sequence = 1;
    parent_commit_id = "";
    committed_at = "2026-07-29T12:00:00Z";
    idempotent = false;
    durability_warnings = [];
  };
  state = evidence_collected;
}

abbrev pub analyzed_view : CaseView
analyzed_view = record {
  snapshot = record created_view.snapshot {
    manifest = record created_view.snapshot.manifest { current_state = diagnosed };
    findings =
        record {
          schema_name = "finding";
          schema_version = "1.0.0";
          finding_id = "finding-cccccccccccccccccccccccc";
          case_id = "case-aaaaaaaaaaaaaaaaaaaaaaaa";
          severity = "high";
          confidence = "medium";
          title = "Boot files are missing";
          rationale = "The volume holds no boot manager.";
          evidence_refs = some ("evidence-bbbbbbbbbbbbbbbbbbbbbbbb" ∷ []);
          affected_target_ids = some ("target-volume-0001" ∷ []);
          recommended_workflows = some [];
          limitations = some [];
          insufficient_evidence = false;
        }
        ∷ [];
    workflow_state = some record {
      schema_name = "case-workflow-state";
      schema_version = "1.0.0";
      case_id = "case-aaaaaaaaaaaaaaaaaaaaaaaa";
      state = analyzed;
      revision = 2;
      updated_at = "2026-07-29T12:00:00Z";
      last_transition_id = "cevt-000000000000000000000002";
      active_plan_id = "";
      active_execution_id = "";
      failure = none;
    };
    coordinator_events =
        created_view.snapshot.coordinator_events
        ++ record {
          schema_name = "coordinator-event";
          schema_version = "1.0.0";
          event_id = "cevt-000000000000000000000002";
          case_id = "case-aaaaaaaaaaaaaaaaaaaaaaaa";
          event_type = analysis_committed;
          actor_type = deterministic_analyzer;
          occurred_at = "2026-07-29T12:00:00Z";
          previous_state = evidence_collected;
          next_state = analyzed;
          expected_commit_id = "commit-000000000000000000000001";
          workflow_revision = 2;
          referenced_document_ids = some (
              "case-aaaaaaaaaaaaaaaaaaaaaaaa" ∷ "finding-cccccccccccccccccccccccc"
              ∷ "evidence-bbbbbbbbbbbbbbbbbbbbbbbb" ∷ "target-volume-0001" ∷ "case-workflow-state"
              ∷ []);
          reason_code = "analysis_committed";
          command_id = "";
        }
          ∷ [];
  };
  commit_info = record {
    case_id = "case-aaaaaaaaaaaaaaaaaaaaaaaa";
    snapshot_id = "snapshot-000000000000000000000002";
    commit_id = "commit-000000000000000000000002";
    sequence = 2;
    parent_commit_id = "commit-000000000000000000000001";
    committed_at = "2026-07-29T12:00:00Z";
    idempotent = false;
    durability_warnings = [];
  };
  state = analyzed;
}

abbrev pub repair_plan : RepairPlan
repair_plan = record {
  schema_name = "repair-plan";
  schema_version = "1.0.0";
  plan_id = "plan-dddddddddddddddddddddddd";
  case_id = "";
  finding_refs = some ("finding-cccccccccccccccccccccccc" ∷ []);
  steps = some (
      record {
        step_id = "copy";
        operation_id = "boot.rebuild";
        operation_version = "1.0.0";
        target_id = "target-volume-0001";
        depends_on = some [];
        approval_required = true;
        backup_required = true;
      }
      ∷ record {
        step_id = "verify";
        operation_id = "boot.verify";
        operation_version = "1.0.0";
        target_id = "target-volume-0001";
        depends_on = some ("copy" ∷ []);
        approval_required = false;
        backup_required = false;
      }
      ∷ []);
  risk_summary = "The boot files are written again.";
  backup_requirements = some [];
  approval_requirements = some [];
  status = "draft";
}

abbrev pub plan_request : CommitPlanRequest
plan_request = record {
  case_id = "case-aaaaaaaaaaaaaaaaaaaaaaaa";
  expected_commit_id = "commit-000000000000000000000002";
  plan = repair_plan;
  actor = technician;
  reason_code = "";
  command_id = "";
}

abbrev pub failure_request : FailCaseRequest
failure_request = record {
  case_id = "case-aaaaaaaaaaaaaaaaaaaaaaaa";
  expected_commit_id = "commit-000000000000000000000002";
  actor = system;
  reason_code = "disk_unreadable";
  detail_code = "";
  command_id = "";
}

abbrev pub case_request : CaseRequest
case_request = record {
  case_id = "case-aaaaaaaaaaaaaaaaaaaaaaaa";
  expected_commit_id = "commit-000000000000000000000002";
  actor = ActorType.unset;
  reason_code = "";
  command_id = "";
}

abbrev pub second : Readings
second = readings 0 "cevt-000000000000000000000002"

abbrev pub third : Readings
third = readings 0 "cevt-000000000000000000000003"

abbrev pub snapshot_of : Result CommandError Snapshot → Snapshot
snapshot_of (ok snap) = snap
snapshot_of (err e) = snapshot_from_importer_result imported

abbrev pub legacy : Snapshot
legacy = snapshot_from_importer_result imported

abbrev pub planned_case : Snapshot
planned_case = record analyzed_view.snapshot {
  manifest = record analyzed_view.snapshot.manifest { current_state = planned };
  repair_plans =
      record {
        schema_name = "repair-plan";
        schema_version = "1.0.0";
        plan_id = "plan-dddddddddddddddddddddddd";
        case_id = "case-aaaaaaaaaaaaaaaaaaaaaaaa";
        finding_refs = some ("finding-cccccccccccccccccccccccc" ∷ []);
        steps = some (
            record {
              step_id = "copy";
              operation_id = "boot.rebuild";
              operation_version = "1.0.0";
              target_id = "target-volume-0001";
              depends_on = some [];
              approval_required = true;
              backup_required = true;
            }
            ∷ record {
              step_id = "verify";
              operation_id = "boot.verify";
              operation_version = "1.0.0";
              target_id = "target-volume-0001";
              depends_on = some ("copy" ∷ []);
              approval_required = false;
              backup_required = false;
            }
            ∷ []);
        risk_summary = "The boot files are written again.";
        backup_requirements = some [];
        approval_requirements = some [];
        status = "draft";
      }
      ∷ [];
  workflow_state = some record {
    schema_name = "case-workflow-state";
    schema_version = "1.0.0";
    case_id = "case-aaaaaaaaaaaaaaaaaaaaaaaa";
    state = plan_proposed;
    revision = 3;
    updated_at = "2026-07-29T12:00:00Z";
    last_transition_id = "cevt-000000000000000000000003";
    active_plan_id = "plan-dddddddddddddddddddddddd";
    active_execution_id = "";
    failure = none;
  };
  coordinator_events =
      analyzed_view.snapshot.coordinator_events
      ++ record {
        schema_name = "coordinator-event";
        schema_version = "1.0.0";
        event_id = "cevt-000000000000000000000003";
        case_id = "case-aaaaaaaaaaaaaaaaaaaaaaaa";
        event_type = plan_committed;
        actor_type = technician;
        occurred_at = "2026-07-29T12:00:00Z";
        previous_state = analyzed;
        next_state = plan_proposed;
        expected_commit_id = "commit-000000000000000000000002";
        workflow_revision = 3;
        referenced_document_ids = some (
            "case-aaaaaaaaaaaaaaaaaaaaaaaa" ∷ "plan-dddddddddddddddddddddddd"
            ∷ "finding-cccccccccccccccccccccccc" ∷ "target-volume-0001" ∷ "case-workflow-state"
            ∷ []);
        reason_code = "plan_committed";
        command_id = "";
      }
        ∷ [];
}

abbrev pub failed_case : Snapshot
failed_case =
    snapshot_of
      (next_failure third failure_request analyzed_view.snapshot analyzed_view.commit_info)

abbrev pub cancelled_case : Snapshot
cancelled_case =
    snapshot_of
      (next_cancellation third case_request analyzed_view.snapshot analyzed_view.commit_info)

abbrev pub adopted_case : Snapshot
adopted_case = snapshot_of (next_adoption second case_request legacy created_view.commit_info)

abbrev pub workflow_of : Option CaseWorkflowState → CaseWorkflowState
workflow_of none = record {
  schema_name = "";
  schema_version = "";
  case_id = "";
  state = WorkflowStateName.unset;
  revision = 0;
  updated_at = "";
  last_transition_id = "";
  active_plan_id = "";
  active_execution_id = "";
  failure = none;
}
workflow_of (some w) = w

abbrev pub head_request : CommitRequest
head_request = record {
  snapshot = analyzed_view.snapshot;
  reason = case_snapshot;
  parent_expectation = ParentExpectation.commit "commit-000000000000000000000001";
}

abbrev pub first_request : CommitRequest
first_request = record {
  snapshot = created_view.snapshot;
  reason = legacy_import;
  parent_expectation = ParentExpectation.absent;
}

abbrev pub grown_chain : List CommitRecord × Result StoreError CommitInfo
grown_chain =
    commit_locked hashes "2026-07-29T12:00:00Z" (opened "case-aaaaaaaaaaaaaaaaaaaaaaaa")
      head_request

abbrev pub first_chain : List CommitRecord × Result StoreError CommitInfo
first_chain = commit_locked hashes "2026-07-29T12:00:00Z" [] first_request

abbrev pub info_or : Result StoreError CommitInfo → CommitInfo
info_or (ok info) = info
info_or (err e) = blank_view.commit_info
