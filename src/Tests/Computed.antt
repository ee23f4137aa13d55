-- ===== src/Tests/Computed.antt =====
-- The commands of a concrete case, computed.
use effexor_win_doctor.Prelude.{String, ◌≡◌, refl, Bool, false, some, List, [], ◌∷◌, ◌==◌, ok, err}
use effexor_win_doctor.Domain.Events.{validate_pr17_coordinator_event_semantics}
use effexor_win_doctor.Domain.Plans.{validate_plan}
use effexor_win_doctor.CaseStore.Snapshot.Transitions.{at_rev}
use effexor_win_doctor.CaseStore.Snapshot.Validation.{validate}
use effexor_win_doctor.CaseStore.Chain.{commit_locked}
use effexor_win_doctor.Coordinator.{legacy_adoption_rejected, current_state}
use effexor_win_doctor.Coordinator.Access.{load_latest_verified, load_expected}
use effexor_win_doctor.Coordinator.Transitions.Permitted.{Closed, cancelled}
use effexor_win_doctor.Coordinator.Commands.{run_command}
use effexor_win_doctor.Coordinator.Commands.Analysis.{next_analysis}
use effexor_win_doctor.Coordinator.Commands.Plan.{filled_plan, next_plan}
use effexor_win_doctor.Coordinator.Commands.Closing.{next_failure, next_cancellation}
use effexor_win_doctor.Coordinator.Commands.Opening.{next_adoption}
use effexor_win_doctor.Coordinator.Acquire.{append_acquisition}
use effexor_win_doctor.Coordinator.Acquire.Example.{read_bundle, acquisition, acquired_case}
use effexor_win_doctor.Tests.ComputedBoot.{ComputedBoot}
use effexor_win_doctor.Tests.ComputedConsultation.{ComputedConsultation}
use effexor_win_doctor.Coordinator.Examples.{
  store, opened, analyze, second, third, analysis_request, plan_request, failure_request,
  case_request, repair_plan, created_view, analyzed_view, planned_case, failed_case, cancelled_case,
  adopted_case, legacy, workflow_of, hashes, head_request, first_request, grown_chain, first_chain,
  info_or,
}

pub record Computed : Type 0 where
  pub analysed :
      next_analysis second analysis_request created_view.snapshot created_view.commit_info
      ≡ ok analyzed_view.snapshot
  pub ran :
      run_command store opened "case-aaaaaaaaaaaaaaaaaaaaaaaa" "commit-000000000000000000000001"
        (next_analysis second analysis_request)
      ≡ (analyze.0, ok analyzed_view)
  pub latest :
      load_latest_verified store analyze.0 "case-aaaaaaaaaaaaaaaaaaaaaaaa"
      ≡ ok (analyzed_view.snapshot, analyzed_view.commit_info)
  pub moved : analyzed_view.commit_info.commit_id == "commit-000000000000000000000001" ≡ false
  pub expected :
      load_expected store analyze.0 "case-aaaaaaaaaaaaaaaaaaaaaaaa"
        "commit-000000000000000000000002"
      ≡ ok (analyzed_view.snapshot, analyzed_view.commit_info)
  pub adoption_refused :
      next_adoption third case_request analyzed_view.snapshot analyzed_view.commit_info
      ≡ err (legacy_adoption_rejected "workflow state already present")
  pub plan_made :
      next_plan third plan_request analyzed_view.snapshot analyzed_view.commit_info
      ≡ ok planned_case
  pub failure_made :
      next_failure third failure_request analyzed_view.snapshot analyzed_view.commit_info
      ≡ ok failed_case
  pub cancellation_made :
      next_cancellation third case_request analyzed_view.snapshot analyzed_view.commit_info
      ≡ ok cancelled_case
  pub adoption_made :
      next_adoption second case_request legacy created_view.commit_info ≡ ok adopted_case
  pub final : Closed (current_state cancelled_case)
  pub workflow : planned_case.workflow_state ≡ some (workflow_of planned_case.workflow_state)
  pub valid : validate planned_case ≡ ok tt
  pub grown :
      commit_locked hashes "2026-07-29T12:00:00Z"
        (opened "case-aaaaaaaaaaaaaaaaaaaaaaaa")
        head_request
      ≡ (grown_chain.0, ok (info_or grown_chain.1))
  pub first :
      commit_locked hashes "2026-07-29T12:00:00Z" [] first_request
      ≡ (first_chain.0, ok (info_or first_chain.1))
  pub plan_valid : validate_plan (filled_plan "case-aaaaaaaaaaaaaaaaaaaaaaaa" repair_plan) ≡ ok tt
  pub event_valid :
      validate_pr17_coordinator_event_semantics (at_rev analyzed_view.snapshot.coordinator_events 2)
      ≡ ok tt
  pub acquired :
      append_acquisition created_view.snapshot [] (read_bundle ∷ []) acquisition ≡ ok acquired_case
  pub boot : ComputedBoot
  pub consultation : ComputedConsultation

pub computed : Computed
unfolding effexor_win_doctor.Coordinator.Acquire.append_acquisition
    effexor_win_doctor.Coordinator.Acquire.merge_targets_append_only
    effexor_win_doctor.Coordinator.Acquire.merge_evidence_append_only
    effexor_win_doctor.Coordinator.Acquire.merge_append_only
    effexor_win_doctor.Coordinator.Acquire.no_clash
    effexor_win_doctor.Coordinator.Acquire.target_ids
    effexor_win_doctor.CaseStore.Snapshot.Sets.sort effexor_win_doctor.Coordinator.new_id
    effexor_win_doctor.Coordinator.current_state effexor_win_doctor.Coordinator.view_from
    effexor_win_doctor.Coordinator.Access.map_store_write_error
    effexor_win_doctor.Coordinator.Access.read_error effexor_win_doctor.Coordinator.Access.is_sound
    effexor_win_doctor.Coordinator.Access.load_latest_verified
    effexor_win_doctor.Coordinator.Access.load_expected
    effexor_win_doctor.Coordinator.Access.load_case effexor_win_doctor.Coordinator.Access.viewed
    effexor_win_doctor.Coordinator.Access.commit_snapshot
    effexor_win_doctor.Coordinator.Access.commit_first
    effexor_win_doctor.Coordinator.ChainStore.update
    effexor_win_doctor.Coordinator.ChainStore.verify
    effexor_win_doctor.Coordinator.ChainStore.chain_store
    effexor_win_doctor.Coordinator.State.append_event
    effexor_win_doctor.Coordinator.State.monotonic_now
    effexor_win_doctor.Coordinator.State.set_workflow
    effexor_win_doctor.Coordinator.State.next_revision
    effexor_win_doctor.Coordinator.State.default_actor
    effexor_win_doctor.Coordinator.State.default_reason
    effexor_win_doctor.Coordinator.State.new_audit_event
    effexor_win_doctor.Coordinator.State.stamp_first
    effexor_win_doctor.Coordinator.State.stamp_audit_event
    effexor_win_doctor.Coordinator.Transitions.event_for
    effexor_win_doctor.Coordinator.Transitions.semantics
    effexor_win_doctor.Coordinator.Transitions.transition_of
    effexor_win_doctor.Coordinator.Transitions.validate_transition
    effexor_win_doctor.Coordinator.Merge.findings_canonically_equal
    effexor_win_doctor.Coordinator.Merge.plans_canonically_equal
    effexor_win_doctor.Coordinator.Merge.last_by_id
    effexor_win_doctor.Coordinator.Merge.merge_findings_append_only
    effexor_win_doctor.Coordinator.Merge.merge_plans_immutable
    effexor_win_doctor.Coordinator.Commands.check_transition
    effexor_win_doctor.Coordinator.Commands.active_plan
    effexor_win_doctor.Coordinator.Commands.finish effexor_win_doctor.Coordinator.Commands.advance
    effexor_win_doctor.Coordinator.Commands.published
    effexor_win_doctor.Coordinator.Commands.after_load
    effexor_win_doctor.Coordinator.Commands.run_command
    effexor_win_doctor.Coordinator.Refs.unique_refs_from
    effexor_win_doctor.Coordinator.Refs.unique_refs
    effexor_win_doctor.Coordinator.Refs.create_or_adopt_refs
    effexor_win_doctor.Coordinator.Refs.analysis_refs effexor_win_doctor.Coordinator.Refs.plan_refs
    effexor_win_doctor.Coordinator.Refs.terminal_refs
    effexor_win_doctor.Coordinator.Commands.Opening.snapshot_from_importer_result
    effexor_win_doctor.Coordinator.Commands.Opening.first_snapshot
    effexor_win_doctor.Coordinator.Commands.Opening.create_case
    effexor_win_doctor.Coordinator.Commands.Opening.check_legacy
    effexor_win_doctor.Coordinator.Commands.Opening.next_adoption
    effexor_win_doctor.Coordinator.Commands.Opening.adopt_legacy_case
    effexor_win_doctor.Coordinator.Commands.Closing.next_failure
    effexor_win_doctor.Coordinator.Commands.Closing.next_cancellation
    effexor_win_doctor.Coordinator.Commands.Closing.fail_case
    effexor_win_doctor.Coordinator.Commands.Closing.cancel_case
    effexor_win_doctor.Coordinator.Commands.Analysis.filled
    effexor_win_doctor.Coordinator.Commands.Analysis.next_analysis
    effexor_win_doctor.Coordinator.Commands.Analysis.commit_analysis
    effexor_win_doctor.Coordinator.Commands.Plan.validate_plan_for_pr17
    effexor_win_doctor.Coordinator.Commands.Plan.filled_plan
    effexor_win_doctor.Coordinator.Commands.Plan.next_plan
    effexor_win_doctor.Coordinator.Commands.Plan.commit_plan
    effexor_win_doctor.Domain.Workflow.state_text effexor_win_doctor.Domain.Workflow.state_eq
    effexor_win_doctor.Domain.Workflow.require_state
    effexor_win_doctor.Domain.Workflow.require_case_state
    effexor_win_doctor.Domain.Workflow.case_state_for_workflow
    effexor_win_doctor.Domain.Workflow.case_state_eq
    effexor_win_doctor.Domain.Workflow.compatible_workflow_and_case_state
    effexor_win_doctor.Domain.Workflow.validate_failure effexor_win_doctor.Domain.Workflow.validate
    effexor_win_doctor.Domain.Documents.validate_case
    effexor_win_doctor.Domain.Documents.validate_target effexor_win_doctor.Domain.Json.valid
    effexor_win_doctor.Domain.Plans.index_of effexor_win_doctor.Domain.Plans.index_steps
    effexor_win_doctor.Domain.Plans.step_index effexor_win_doctor.Domain.Plans.check_deps
    effexor_win_doctor.Domain.Plans.check_order effexor_win_doctor.Domain.Plans.validate_plan
    effexor_win_doctor.Domain.Checks.require_non_empty
    effexor_win_doctor.Domain.Checks.require_match effexor_win_doctor.Domain.Checks.require_rfc3339
    effexor_win_doctor.Domain.Checks.require_sha256 effexor_win_doctor.Domain.Checks.require_schema
    effexor_win_doctor.Domain.Checks.require_enum
    effexor_win_doctor.Domain.Checks.validate_relative_path
    effexor_win_doctor.Domain.Checks.require_each effexor_win_doctor.Domain.Checks.require_present
    effexor_win_doctor.Domain.Checks.unique_ids_from
    effexor_win_doctor.Domain.Checks.require_unique_id_list
    effexor_win_doctor.Domain.Checks.require_ref effexor_win_doctor.Domain.Checks.require_refs
    effexor_win_doctor.Domain.Patterns.tagged effexor_win_doctor.Domain.Patterns.re_case_id
    effexor_win_doctor.Domain.Patterns.re_target_id
    effexor_win_doctor.Domain.Patterns.re_evidence_id
    effexor_win_doctor.Domain.Patterns.re_finding_id effexor_win_doctor.Domain.Patterns.re_plan_id
    effexor_win_doctor.Domain.Patterns.re_operation_id
    effexor_win_doctor.Domain.Patterns.re_execution_id
    effexor_win_doctor.Domain.Patterns.re_verification_id
    effexor_win_doctor.Domain.Patterns.re_artifact_id
    effexor_win_doctor.Domain.Patterns.re_coordinator_event_id
    effexor_win_doctor.Domain.Patterns.re_acquisition_id
    effexor_win_doctor.Domain.Patterns.re_acquisition_request_id
    effexor_win_doctor.Domain.Patterns.re_topology_id
    effexor_win_doctor.Domain.Patterns.re_consultation_id
    effexor_win_doctor.Domain.Patterns.re_consultation_request_id
    effexor_win_doctor.Domain.Patterns.re_hypothesis_id
    effexor_win_doctor.Domain.Patterns.re_producer_id
    effexor_win_doctor.Domain.Patterns.re_commit_id
    effexor_win_doctor.Domain.Patterns.re_reason_code
    effexor_win_doctor.Domain.Patterns.re_command_id effexor_win_doctor.Domain.Patterns.re_sha256
    effexor_win_doctor.Domain.Patterns.re_semver
    effexor_win_doctor.Domain.Consultations.validate_consultation
    effexor_win_doctor.Domain.Evidence.validate_evidence
    effexor_win_doctor.Domain.Evidence.validate_finding effexor_win_doctor.Domain.Time.parse
    effexor_win_doctor.Domain.Time.format
    effexor_win_doctor.Domain.Semantics.validate_pr17_workflow_state_document_semantics
    effexor_win_doctor.Domain.Semantics.validate_pr17_workflow_state_semantics
    effexor_win_doctor.Domain.Records.validate_execution
    effexor_win_doctor.Domain.Records.validate_verification
    effexor_win_doctor.Domain.Records.validate_acquisition
    effexor_win_doctor.Domain.Events.actor_text effexor_win_doctor.Domain.Events.event_type_text
    effexor_win_doctor.Domain.Events.require_actor
    effexor_win_doctor.Domain.Events.require_event_type effexor_win_doctor.Domain.Events.validate
    effexor_win_doctor.Domain.Events.is_pr17_allowed_actor
    effexor_win_doctor.Domain.Events.is_state_changing_coordinator_event_type
    effexor_win_doctor.Domain.Events.allowed_actor_for_pr17_event
    effexor_win_doctor.Domain.Events.valid_pr17_transition_for_event
    effexor_win_doctor.Domain.Events.revision_rules
    effexor_win_doctor.Domain.Events.validate_pr17_coordinator_event_semantics
    effexor_win_doctor.Domain.CrossRefs.validate_acquisition_refs
    effexor_win_doctor.Domain.CrossRefs.validate_finding_refs
    effexor_win_doctor.Domain.CrossRefs.validate_plan_refs
    effexor_win_doctor.Domain.CrossRefs.validate_evidence_refs
    effexor_win_doctor.Domain.CrossRefs.validate_execution_refs
    effexor_win_doctor.Domain.CrossRefs.validate_verification_refs
    effexor_win_doctor.Domain.CrossRefs.validate_workflow_refs
    effexor_win_doctor.Domain.CrossRefs.check_document_refs
    effexor_win_doctor.Domain.CrossRefs.validate_coordinator_event_refs
    effexor_win_doctor.Domain.CrossRefs.validate_consultation_refs
    effexor_win_doctor.CaseStore.Chain.actual
    effexor_win_doctor.CaseStore.Chain.validate_expectation
    effexor_win_doctor.CaseStore.Chain.check_expectation
    effexor_win_doctor.CaseStore.Chain.verify_committed_history
    effexor_win_doctor.CaseStore.Chain.validate_acquisition_commit_provenance
    effexor_win_doctor.CaseStore.Chain.info_of effexor_win_doctor.CaseStore.Chain.repeats
    effexor_win_doctor.CaseStore.Chain.record_after effexor_win_doctor.CaseStore.Chain.decided
    effexor_win_doctor.CaseStore.Chain.commit_locked effexor_win_doctor.CaseStore.Chain.load_latest
    effexor_win_doctor.CaseStore.Snapshot.find_finding_by_id
    effexor_win_doctor.CaseStore.Snapshot.find_plan_by_id
    effexor_win_doctor.CaseStore.Snapshot.find_target_by_id
    effexor_win_doctor.CaseStore.Snapshot.find_evidence_by_id
    effexor_win_doctor.CaseStore.Snapshot.Provenance.state_documents
    effexor_win_doctor.CaseStore.Snapshot.Provenance.validate_lifecycle_provenance
    effexor_win_doctor.CaseStore.Snapshot.Sets.unique_from
    effexor_win_doctor.CaseStore.Snapshot.Sets.unique_sorted_strings
    effexor_win_doctor.CaseStore.Snapshot.Sets.same_strings
    effexor_win_doctor.CaseStore.Snapshot.Sets.require_exact_ref_set
    effexor_win_doctor.CaseStore.Snapshot.Sets.distinct
    effexor_win_doctor.CaseStore.Snapshot.Sets.unique_ids
    effexor_win_doctor.CaseStore.Snapshot.Sets.for_each
    effexor_win_doctor.CaseStore.Snapshot.Validation.validate_workflow_transition_integrity
    effexor_win_doctor.CaseStore.Snapshot.Validation.check_ids
    effexor_win_doctor.CaseStore.Snapshot.Validation.validate
    effexor_win_doctor.CaseStore.Snapshot.Transitions.by_rev
    effexor_win_doctor.CaseStore.Snapshot.Transitions.by_id
    effexor_win_doctor.CaseStore.Snapshot.Transitions.collect_changing
    effexor_win_doctor.CaseStore.Snapshot.Transitions.check_contiguous
    effexor_win_doctor.CaseStore.Snapshot.Transitions.check_times
    effexor_win_doctor.CaseStore.Snapshot.Transitions.check_chain
    effexor_win_doctor.CaseStore.Snapshot.Transitions.check_revisions
    effexor_win_doctor.CaseStore.Snapshot.Artifacts.reject_traversal
    effexor_win_doctor.CaseStore.Snapshot.Artifacts.artifact_refs_equal
    effexor_win_doctor.CaseStore.Snapshot.Artifacts.collect_evidence
    effexor_win_doctor.CaseStore.Snapshot.Origin.claim
    effexor_win_doctor.CaseStore.Snapshot.Origin.has_target
    effexor_win_doctor.CaseStore.Snapshot.Origin.has_evidence
    effexor_win_doctor.CaseStore.Snapshot.Origin.claims
    effexor_win_doctor.CaseStore.Snapshot.Origin.one_origin
    effexor_win_doctor.CaseStore.Snapshot.Origin.validate_evidence_acquisition_origin
    effexor_win_doctor.CaseStore.Snapshot.References.added_targets
    effexor_win_doctor.CaseStore.Snapshot.References.added_evidence
    effexor_win_doctor.CaseStore.Snapshot.References.initial_target_and_evidence_ids
    effexor_win_doctor.CaseStore.Snapshot.References.create_or_adopt_reference_set
    effexor_win_doctor.CaseStore.Snapshot.References.analysis_reference_closure
    effexor_win_doctor.CaseStore.Snapshot.References.plan_reference_closure
    effexor_win_doctor.CaseStore.Snapshot.References.validate_coordinator_event_reference_semantics
    effexor_win_doctor.Prelude.trim_space effexor_win_doctor.Prelude.to_lower
    effexor_win_doctor.Prelude.hex_encode effexor_win_doctor.Prelude.itoa
    effexor_win_doctor.Domain.Plans.validate_step
    effexor_win_doctor.Coordinator.Commands.BootAnalysis.select_topology_evidence
    effexor_win_doctor.Coordinator.Commands.BootAnalysis.findings_subset_equal
    effexor_win_doctor.Coordinator.Commands.BootAnalysis.analysis_request_of
    effexor_win_doctor.Coordinator.Commands.BootAnalysis.first_non_empty
    effexor_win_doctor.Coordinator.Commands.BootAnalysis.is_analysis
    effexor_win_doctor.Coordinator.Commands.BootAnalysis.was_committed
    effexor_win_doctor.Coordinator.Commands.BootAnalysis.decide
    effexor_win_doctor.Coordinator.Commands.BootAnalysis.analyzed_findings
    effexor_win_doctor.Coordinator.Commands.BootAnalysis.decided_command
    effexor_win_doctor.Coordinator.Commands.BootAnalysis.carried_out
    effexor_win_doctor.Coordinator.Commands.BootAnalysis.commit_boot_doctor_analysis
    effexor_win_doctor.Coordinator.Acquire.RequestId.same_bytes
    effexor_win_doctor.Coordinator.Acquire.RequestId.matched
    effexor_win_doctor.Coordinator.Acquire.RequestId.validate_acquisition_request_id
    effexor_win_doctor.BootDoctor.Analyze.refs_exist
    effexor_win_doctor.BootDoctor.Analyze.finding_of
    effexor_win_doctor.BootDoctor.Analyze.checked_finding
    effexor_win_doctor.BootDoctor.Analyze.make_findings
    effexor_win_doctor.BootDoctor.Analyze.finding_before
    effexor_win_doctor.BootDoctor.Analyze.sort_findings
    effexor_win_doctor.BootDoctor.Analyze.analyze effexor_win_doctor.BootDoctor.Catalog.spec_of
    effexor_win_doctor.BootDoctor.Drafts.add effexor_win_doctor.BootDoctor.Drafts.add_all
    effexor_win_doctor.BootDoctor.Drafts.firmware_calls
    effexor_win_doctor.BootDoctor.Drafts.windows_calls
    effexor_win_doctor.BootDoctor.Drafts.esp_calls effexor_win_doctor.BootDoctor.Drafts.bcd_calls
    effexor_win_doctor.BootDoctor.Drafts.bitlocker_calls
    effexor_win_doctor.BootDoctor.Drafts.storage_calls
    effexor_win_doctor.BootDoctor.Drafts.is_incomplete
    effexor_win_doctor.BootDoctor.Drafts.completeness_calls
    effexor_win_doctor.BootDoctor.Drafts.is_healthy
    effexor_win_doctor.BootDoctor.Drafts.consistency_calls
    effexor_win_doctor.BootDoctor.Drafts.calls effexor_win_doctor.BootDoctor.Drafts.collect_drafts
    effexor_win_doctor.BootDoctor.Identity.unique_sorted effexor_win_doctor.BootDoctor.Identity.join
    effexor_win_doctor.BootDoctor.Identity.take_text
    effexor_win_doctor.BootDoctor.Identity.identity_text
    effexor_win_doctor.BootDoctor.Identity.finding_id_for
    effexor_win_doctor.BootDoctor.Identity.finding_code_of
    effexor_win_doctor.BootDoctor.Queries.to_set
    effexor_win_doctor.BootDoctor.Queries.candidates_by_role
    effexor_win_doctor.BootDoctor.Queries.candidate_targets
    effexor_win_doctor.BootDoctor.Queries.firmware_targets
    effexor_win_doctor.BootDoctor.Queries.topology_evidence_refs
    effexor_win_doctor.BootDoctor.Queries.targets_for_ambiguity
    effexor_win_doctor.BootDoctor.Queries.has_drive_health_ambiguity
    effexor_win_doctor.BootDoctor.Queries.has_relation_type
    effexor_win_doctor.BootDoctor.Queries.has_bcd_for_windows
    effexor_win_doctor.BootDoctor.Queries.bcd_unknown_windows
    effexor_win_doctor.BootDoctor.Queries.has_cross_disk_esp
    effexor_win_doctor.BootDoctor.Queries.has_bcd_cross_disk
    effexor_win_doctor.BootDoctor.Queries.target_by_id
    effexor_win_doctor.BootDoctor.Queries.preferred_disk
    effexor_win_doctor.BootDoctor.Queries.disk_style
    effexor_win_doctor.BootDoctor.Queries.has_conflicting_ambiguity
    effexor_win_doctor.BootDoctor.Queries.selected_targets
    effexor_win_doctor.BootDoctor.Queries.selected_or_all
    effexor_win_doctor.BootDoctor.Suppress.victims_of effexor_win_doctor.BootDoctor.Suppress.dropped
    effexor_win_doctor.BootDoctor.Suppress.without
    effexor_win_doctor.BootDoctor.Suppress.apply_suppression
    effexor_win_doctor.BootDoctor.Suppress.Kept.found
    effexor_win_doctor.BootDoctor.Suppress.Kept.is_victim
    effexor_win_doctor.Domain.Topology.Validation.validate_candidate
    effexor_win_doctor.Domain.Topology.Validation.validate_relation
    effexor_win_doctor.Domain.Topology.Validation.validate_selection
    effexor_win_doctor.Domain.Topology.Validation.validate_ambiguity
    effexor_win_doctor.Domain.Topology.Validation.validate_eligibility
    effexor_win_doctor.Domain.Topology.Validation.validate_topology
    effexor_win_doctor.Prelude.bytes_of effexor_win_doctor.Prelude.utf8
    effexor_win_doctor.Coordinator.Commands.Consultation.require_consultation_actor
    effexor_win_doctor.Coordinator.Commands.Consultation.is_analyzed
    effexor_win_doctor.Coordinator.Commands.Consultation.require_analyzed_for_consultation
    effexor_win_doctor.Coordinator.Commands.Consultation.validate_consultation_request_id
    effexor_win_doctor.Coordinator.Commands.Consultation.consultation_id_for
    effexor_win_doctor.Coordinator.Commands.Consultation.requested
    effexor_win_doctor.Coordinator.Commands.Consultation.identified
    effexor_win_doctor.Coordinator.Commands.Consultation.find_consultation_replay
    effexor_win_doctor.Coordinator.Commands.Consultation.no_twin
    effexor_win_doctor.Coordinator.Commands.Consultation.build_cross_refs
    effexor_win_doctor.Coordinator.Commands.Consultation.append_consultation
    effexor_win_doctor.Coordinator.Commands.Consultation.new_consultation
    effexor_win_doctor.Coordinator.Commands.Consultation.replayed_or_new
    effexor_win_doctor.Coordinator.Commands.Consultation.check_consultation_request
    effexor_win_doctor.Coordinator.Commands.Consultation.decide_consultation
    effexor_win_doctor.Coordinator.Commands.Consultation.consultation_decision
    effexor_win_doctor.Coordinator.Commands.Consultation.carry_out_consultation
    effexor_win_doctor.Coordinator.Commands.Consultation.commit_agent_consultation
    effexor_win_doctor.Coordinator.Commands.Consultation.Equal.same_items
    effexor_win_doctor.Coordinator.Commands.Consultation.Equal.same_documents
    effexor_win_doctor.Coordinator.Commands.Consultation.Equal.same_hypothesis
    effexor_win_doctor.Coordinator.Commands.Consultation.Equal.same_source
    effexor_win_doctor.Coordinator.Commands.Consultation.Equal.same_provider
    effexor_win_doctor.Coordinator.Commands.Consultation.Equal.consultations_canonically_equal
computed = record {
  analysed = refl;
  ran = refl;
  latest = refl;
  moved = refl;
  expected = refl;
  adoption_refused = refl;
  plan_made = refl;
  failure_made = refl;
  cancellation_made = refl;
  adoption_made = refl;
  final = cancelled;
  workflow = refl;
  valid = refl;
  grown = refl;
  first = refl;
  plan_valid = refl;
  event_valid = refl;
  acquired = refl;
  boot = record {
    consistent = refl;
    findings = refl;
    ran = refl;
    is_new = refl;
    is_written = refl;
    commanded = refl;
    commanded_new = refl;
    commanded_written = refl;
    commanded_moved = refl;
  };
  consultation = record {
    named = refl;
    named_new = refl;
    named_written = refl;
    unnamed = refl;
    unnamed_new = refl;
    unnamed_written = refl;
    unnamed_moved = refl;
  };
}
