-- ===== src/CaseStore/Snapshot/Validation.antt =====
-- `Snapshot.Validate` of internal/recovery/casestore/snapshot.go.
pub mod Parts
use effexor_win_doctor.Prelude.{
  ℕ, String, ◌+◌, Option, none, some, List, [], ◌∷◌, ◌++◌, ◌&&◌, not, ltb, eqb, ◌==◌, is_empty,
  length, elems, map, contains_string, Result, ok, err, guard, map_err, ◌>>=◌, ◌>>◌, itoa,
}
use effexor_win_doctor.Domain.Errors.{Error, errorf, wrap, Check}
use effexor_win_doctor.Domain.Events.{CoordinatorEvent}
use effexor_win_doctor.Domain.Time.{parse}
use effexor_win_doctor.Domain.Workflow.{
  CaseWorkflowState, compatible_workflow_and_case_state, state_text,
}
use effexor_win_doctor.Domain.Events.{document_id_case_workflow_state}
use effexor_win_doctor.Domain.Documents.{Target, validate_case, validate_target}
use effexor_win_doctor.Domain.Evidence.{ArtifactRef}
use effexor_win_doctor.Domain.Semantics.{validate_pr17_workflow_state_semantics}
use effexor_win_doctor.Domain.CrossRefs
use effexor_win_doctor.Domain.CrossRefs.{CrossRefs}
use effexor_win_doctor.CaseStore.Snapshot.{Snapshot}
use effexor_win_doctor.CaseStore.Snapshot.Artifacts.{collect_evidence}
use effexor_win_doctor.CaseStore.Snapshot.Sets.{invalid, distinct, unique_ids, for_each}
use effexor_win_doctor.CaseStore.Snapshot.Transitions.{collect_changing, check_revisions, at_rev}
use effexor_win_doctor.CaseStore.Snapshot.Provenance.{validate_lifecycle_provenance}
use effexor_win_doctor.CaseStore.Snapshot.References.{
  validate_coordinator_event_reference_semantics,
}
use effexor_win_doctor.CaseStore.Snapshot.Origin.{
  validate_evidence_acquisition_origin, target_ids_of, evidence_ids_of,
}

-- The two loops over the acquisitions and over the consultations: an id, a request's id and a case.
requests : String → String → List String → List String → List (String × (String × String)) → Check
requests what case_id seen seen_requests [] = ok tt
requests what case_id seen seen_requests ((id, (request_id, owner)) ∷ records) =
    guard (not (contains_string seen id)) (invalid "duplicate %s id %q" (what ∷ id ∷ []))
    >> (guard (not (contains_string seen_requests request_id))
          (invalid "duplicate %s request_id %q" (what ∷ request_id ∷ []))
        >> (guard (owner == case_id) (invalid "%s[%d].case_id mismatch" (what ∷ []))
            >> requests what case_id (id ∷ seen) (request_id ∷ seen_requests) records))

check_targets : ℕ → List String → List Target → Check
check_targets i seen [] = ok tt
check_targets i seen (t ∷ targets) =
    map_err (wrap "targets[%d]: %w" (itoa i ∷ [])) (validate_target t)
    >> (guard (not (contains_string seen t.target_id))
          (invalid "duplicate target_id %q" (t.target_id ∷ []))
        >> check_targets (i + 1) (t.target_id ∷ seen) targets)

all_in : String → List String → List String → Check
all_in message known [] = ok tt
all_in message known (id ∷ ids) =
    guard (contains_string known id) (invalid message (id ∷ [])) >> all_in message known ids

lifecycle_needs_workflow : Option CaseWorkflowState → Snapshot → Check
lifecycle_needs_workflow none s =
    guard
      (is_empty s.findings
        && is_empty s.repair_plans
        && is_empty s.execution_events
        && is_empty s.verification_reports
        && is_empty s.coordinator_events
        && is_empty s.evidence_acquisitions
        && is_empty s.agent_consultations)
      (invalid "lifecycle documents require workflow_state" [])
lifecycle_needs_workflow (some w) s = ok tt

updated_in_order : Option ℕ → Option ℕ → Check
updated_in_order none updated = err (errorf "case.created_at: %w" [])
updated_in_order (some created) none = err (errorf "case.updated_at: %w" [])
updated_in_order (some created) (some updated) =
    guard (not (ltb updated created)) (invalid "updated_at must not be before created_at" [])

workflow_document : Option CaseWorkflowState → List String
workflow_document none = []
workflow_document (some w) = document_id_case_workflow_state ∷ []

-- The ids that the cross references are checked with.
cross_refs : Snapshot → List ArtifactRef → CrossRefs
unfolding workflow_document
cross_refs s artifacts =
    let targets = target_ids_of s.targets in
    let evidence = evidence_ids_of s.evidence_bundles in
    let findings = map (λ f. f.finding_id) s.findings in
    let plans = map (λ p. p.plan_id) s.repair_plans in
    let executions = map (λ e. e.execution_id) s.execution_events in
    let verifications = map (λ v. v.verification_id) s.verification_reports in
    let events = map (λ e. e.event_id) s.coordinator_events in
    let acquisitions = map (λ a. a.acquisition_id) s.evidence_acquisitions in
    let consultations = map (λ c. c.consultation_id) s.agent_consultations in
    record {
      case_ids = s.manifest.case_id ∷ [];
      target_ids = targets;
      evidence_ids = evidence;
      finding_ids = findings;
      plan_ids = plans;
      execution_ids = executions;
      verification_ids = verifications;
      artifact_ids = map (λ a. a.artifact_id) artifacts;
      coordinator_event_ids = events;
      document_ids =
          s.manifest.case_id
          ∷ (targets
              ++ (evidence
                  ++ (findings
                      ++ (plans
                          ++ (executions
                              ++ (verifications
                                  ++ (events
                                      ++ (acquisitions
                                          ++ (consultations
                                              ++ workflow_document s.workflow_state)))))))));
    }

owned : String → String → ℕ → String → Check
owned case_id format i owner = guard (owner == case_id) (invalid format (itoa i ∷ []))

unfoldable checked_event : Snapshot → CrossRefs → ℕ → CoordinatorEvent → Check
unfolding owned
checked_event s refs i e =
    map_err (wrap "coordinator_events[%d]: %w" (itoa i ∷ []))
      (CrossRefs.validate_coordinator_event_refs e refs)
    >> (owned s.manifest.case_id "coordinator_events[%d].case_id mismatch" i e.case_id
        >> map_err (wrap "coordinator_events[%d]: %w" (itoa i ∷ []))
            (validate_coordinator_event_reference_semantics s e))

-- The loops over the documents, each with its cross references.
unfoldable documents : Snapshot → CrossRefs → Check
unfolding owned checked_event
documents s refs = do
  let id = s.manifest.case_id
  for_each
      (λ i e.
        map_err (wrap "evidence_bundles[%d]: %w" (itoa i ∷ []))
          (CrossRefs.validate_evidence_refs e refs))
      0 s.evidence_bundles
  for_each
      (λ i f.
        map_err (wrap "findings[%d]: %w" (itoa i ∷ [])) (CrossRefs.validate_finding_refs f refs)
        >> owned id "findings[%d].case_id mismatch" i f.case_id)
      0 s.findings
  for_each
      (λ i p.
        map_err (wrap "repair_plans[%d]: %w" (itoa i ∷ [])) (CrossRefs.validate_plan_refs p refs)
        >> owned id "repair_plans[%d].case_id mismatch" i p.case_id)
      0 s.repair_plans
  for_each
      (λ i e.
        map_err (wrap "execution_events[%d]: %w" (itoa i ∷ []))
          (CrossRefs.validate_execution_refs e refs)
        >> owned id "execution_events[%d].case_id mismatch" i e.case_id)
      0 s.execution_events
  for_each
      (λ i v.
        map_err (wrap "verification_reports[%d]: %w" (itoa i ∷ []))
          (CrossRefs.validate_verification_refs v refs)
        >> owned id "verification_reports[%d].case_id mismatch" i v.case_id)
      0 s.verification_reports
  for_each (checked_event s refs) 0 s.coordinator_events
  for_each
      (λ i a.
        map_err (wrap "evidence_acquisitions[%d]: %w" (itoa i ∷ []))
          (CrossRefs.validate_acquisition_refs a refs))
      0 s.evidence_acquisitions
  for_each
      (λ i c.
        map_err (wrap "agent_consultations[%d]: %w" (itoa i ∷ []))
          (CrossRefs.validate_consultation_refs c refs))
      0 s.agent_consultations

-- `validateWorkflowTransitionIntegrity`
unfoldable pub validate_workflow_transition_integrity : CaseWorkflowState → Snapshot → Check
validate_workflow_transition_integrity ws s =
    collect_changing [] s.coordinator_events >>= λ changing.
    check_revisions ws s.manifest.case_id s.coordinator_events changing
    >> (map_err (wrap "%w: %v" ("casestore: invalid argument" ∷ []))
          (validate_pr17_workflow_state_semantics ws s.manifest (at_rev changing ws.revision))
        >> map_err (wrap "%w: %v" ("casestore: invalid argument" ∷ []))
            (validate_lifecycle_provenance s))

workflow_rules : Option CaseWorkflowState → Snapshot → CrossRefs → Check
workflow_rules none s refs =
    guard (is_empty s.evidence_acquisitions && is_empty s.agent_consultations)
      (invalid "evidence acquisitions and consultations require workflow_state" [])
workflow_rules (some ws) s refs = do
  map_err (wrap "workflow_state: %w" []) (CrossRefs.validate_workflow_refs ws refs)
  guard (ws.case_id == s.manifest.case_id) (invalid "workflow_state.case_id mismatch" [])
  guard (compatible_workflow_and_case_state ws.state s.manifest.current_state) (
      invalid "workflow state %q incompatible with case current_state %q"
        (state_text ws.state ∷ []))
  validate_workflow_transition_integrity ws s
  map_err (wrap "%w: %v" ("casestore: invalid argument" ∷ []))
      (validate_evidence_acquisition_origin s)

-- The part of `Validate` up to the cross references: the artifacts that they name.
unfoldable pub check_ids : Snapshot → Result Error (List ArtifactRef)
unfolding requests check_targets all_in lifecycle_needs_workflow updated_in_order
check_ids s = do
  map_err (wrap "case: %w" []) (validate_case s.manifest)
  guard (not (is_empty s.targets)) (invalid "targets must not be empty" [])
  guard (not (is_empty s.evidence_bundles)) (invalid "evidence_bundles must not be empty" [])
  updated_in_order (parse s.manifest.created_at) (parse s.manifest.updated_at)
  lifecycle_needs_workflow s.workflow_state s
  check_targets 0 [] s.targets
  let listed = distinct [] (elems s.manifest.target_ids)
  let present = target_ids_of s.targets
  guard (eqb (length listed) (length present))
      (invalid "case.target_ids does not match targets set" [])
  all_in "target %q missing from case.target_ids" listed present
  all_in "case.target_ids entry %q has no target document" present listed
  artifacts ← collect_evidence s.manifest.case_id [] [] s.evidence_bundles
  unique_ids "duplicate finding_id %q" (λ f. f.finding_id) [] s.findings
  unique_ids "duplicate plan_id %q" (λ p. p.plan_id) [] s.repair_plans
  unique_ids "duplicate execution_id %q" (λ e. e.execution_id) [] s.execution_events
  unique_ids "duplicate verification_id %q" (λ v. v.verification_id) [] s.verification_reports
  unique_ids "duplicate coordinator event_id %q" (λ e. e.event_id) [] s.coordinator_events
  requests "acquisition" s.manifest.case_id [] []
      (map (λ a. (a.acquisition_id, (a.request_id, a.case_id))) s.evidence_acquisitions)
  requests "consultation" s.manifest.case_id [] []
      (map (λ c. (c.consultation_id, (c.request_id, c.case_id))) s.agent_consultations)
  ok artifacts

unfoldable pub validate : Snapshot → Check
unfolding cross_refs documents workflow_rules
validate s = check_ids s >>= λ artifacts.
    let refs = cross_refs s artifacts in documents s refs >> workflow_rules s.workflow_state s refs
