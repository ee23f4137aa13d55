-- ===== src/CaseStore/Snapshot/References.antt =====
-- `validateCoordinatorEventReferenceSemantics` of internal/recovery/casestore/snapshot.go: the
-- references of an audit event are exactly those of the documents that it commits.
use text.Mathlib.Text.{starts_with}
use effexor_win_doctor.Prelude.{
  String, Bool, false, Option, none, some, List, [], ◌∷◌, ◌++◌, not, ◌==◌, if◌then◌else◌, ◌&&◌,
  elems, contains_string, Result, ok, err, guard, ◌>>=◌, ◌>>◌, map_err,
}
use effexor_win_doctor.Domain.Errors.{Error, errorf, wrap, Check}
use effexor_win_doctor.Domain.Workflow.{CaseWorkflowState, plan_proposed, state_eq}
use effexor_win_doctor.Domain.Events.{
  CoordinatorEvent, CoordinatorEventType, case_created, legacy_case_adopted, analysis_committed,
  plan_committed, case_failed, case_cancelled, document_id_case_workflow_state,
}
use effexor_win_doctor.Domain.Documents.{Target}
use effexor_win_doctor.Domain.Evidence.{EvidenceBundle, Finding}
use effexor_win_doctor.Domain.Plans.{RepairPlan}
use effexor_win_doctor.Domain.Records.{EvidenceAcquisitionRecord}
use effexor_win_doctor.Domain.CrossRefs.{step_targets}
use effexor_win_doctor.CaseStore.Snapshot.{Snapshot, find_finding_by_id, find_plan_by_id}
use effexor_win_doctor.CaseStore.Snapshot.Sets.{require_exact_ref_set, unique_sorted_strings}

-- The ids that acquisitions added.
unfoldable pub added_targets : List EvidenceAcquisitionRecord → List String
added_targets [] = []
added_targets (a ∷ acqs) = elems a.added_target_ids ++ added_targets acqs

unfoldable pub added_evidence : List EvidenceAcquisitionRecord → List String
added_evidence [] = []
added_evidence (a ∷ acqs) = elems a.added_evidence_ids ++ added_evidence acqs

targets_without : List String → List Target → List String
targets_without added [] = []
targets_without added (t ∷ ts) =
    let rest = targets_without added ts in
    if contains_string added t.target_id then rest else t.target_id ∷ rest

evidence_without : List String → List EvidenceBundle → List String
evidence_without added [] = []
evidence_without added (e ∷ es) =
    let rest = evidence_without added es in
    if contains_string added e.evidence_id then rest else e.evidence_id ∷ rest

-- `initialTargetAndEvidenceIDs`
unfoldable pub initial_target_and_evidence_ids : Snapshot → List String × List String
unfolding targets_without evidence_without
initial_target_and_evidence_ids s = (
  targets_without (added_targets s.evidence_acquisitions) s.targets,
  evidence_without (added_evidence s.evidence_acquisitions) s.evidence_bundles,
)

unfoldable pub create_or_adopt_reference_set : Snapshot → List String
create_or_adopt_reference_set s =
    let (targets, evidence) = initial_target_and_evidence_ids s in
    unique_sorted_strings
      (s.manifest.case_id ∷ document_id_case_workflow_state ∷ (targets ++ evidence))

finding_refs : Option Finding → List String
finding_refs none = []
finding_refs (some f) = f.finding_id ∷ (elems f.evidence_refs ++ elems f.affected_target_ids)

findings_refs : List Finding → List String → List String
unfolding finding_refs
findings_refs findings [] = []
findings_refs findings (id ∷ ids) =
    finding_refs (find_finding_by_id findings id) ++ findings_refs findings ids

closure_or_error : List String → List String → Result Error (List String)
closure_or_error base [] = err (errorf "analysis_committed requires at least one finding ref" [])
closure_or_error base (r ∷ refs) = ok (unique_sorted_strings (base ++ r ∷ refs))

unfoldable pub analysis_reference_closure : Snapshot → CoordinatorEvent → Result Error (List String)
unfolding findings_refs closure_or_error
analysis_reference_closure s e =
    closure_or_error (s.manifest.case_id ∷ document_id_case_workflow_state ∷ [])
      (findings_refs s.findings (elems e.referenced_document_ids))

plans_of : Option RepairPlan → List RepairPlan
plans_of none = []
plans_of (some p) = p ∷ []

referenced_plans : List RepairPlan → List String → List RepairPlan
unfolding plans_of
referenced_plans plans [] = []
referenced_plans plans (id ∷ ids) =
    plans_of (find_plan_by_id plans id) ++ referenced_plans plans ids

-- In the state plan_proposed the active plan is the one that the event commits.
active_plan_differs : Option CaseWorkflowState → String → Bool
active_plan_differs none plan_id = false
active_plan_differs (some w) plan_id =
    state_eq w.state plan_proposed && not (w.active_plan_id == plan_id)

plan_closure : Snapshot → List RepairPlan → Result Error (List String)
unfolding active_plan_differs
plan_closure s (p ∷ []) =
    if active_plan_differs s.workflow_state p.plan_id
    then err (errorf "plan_committed active_plan_id must match referenced plan" [])
    else ok (
        unique_sorted_strings (
          s.manifest.case_id
          ∷ document_id_case_workflow_state
          ∷ p.plan_id
          ∷ (elems p.finding_refs ++ step_targets (elems p.steps))))
plan_closure s _ = err (errorf "plan_committed requires exactly one plan ref" [])

unfoldable pub plan_reference_closure : Snapshot → CoordinatorEvent → Result Error (List String)
unfolding plan_closure referenced_plans
plan_reference_closure s e =
    plan_closure s (referenced_plans s.repair_plans (elems e.referenced_document_ids))

active_plan_ref : Option CaseWorkflowState → List String
active_plan_ref none = []
active_plan_ref (some w) = if w.active_plan_id == "" then [] else w.active_plan_id ∷ []

-- The switch over the event's type.
exact_refs : CoordinatorEventType → Snapshot → CoordinatorEvent → List String → Check
unfolding active_plan_ref
exact_refs case_created s e refs =
    map_err (wrap "%s refs: %w" ("case_created" ∷ []))
      (require_exact_ref_set refs (create_or_adopt_reference_set s))
exact_refs legacy_case_adopted s e refs =
    map_err (wrap "%s refs: %w" ("legacy_case_adopted" ∷ []))
      (require_exact_ref_set refs (create_or_adopt_reference_set s))
exact_refs analysis_committed s e refs = analysis_reference_closure s e >>= λ want.
    map_err (wrap "analysis refs: %w" []) (require_exact_ref_set refs want)
exact_refs plan_committed s e refs = plan_reference_closure s e >>= λ want.
    map_err (wrap "plan refs: %w" []) (require_exact_ref_set refs want)
exact_refs case_failed s e refs = map_err (wrap "terminal refs: %w" []) (
    require_exact_ref_set refs
      (s.manifest.case_id ∷ document_id_case_workflow_state ∷ active_plan_ref s.workflow_state))
exact_refs case_cancelled s e refs = map_err (wrap "terminal refs: %w" []) (
    require_exact_ref_set refs
      (s.manifest.case_id ∷ document_id_case_workflow_state ∷ active_plan_ref s.workflow_state))
exact_refs _ s e refs = ok tt

no_event_ids : List String → Check
no_event_ids [] = ok tt
no_event_ids (id ∷ ids) =
    guard (not (starts_with id "cevt-"))
      (errorf "referenced_document_ids must not contain coordinator event ids" [])
    >> no_event_ids ids

unfoldable pub validate_coordinator_event_reference_semantics : Snapshot → CoordinatorEvent → Check
unfolding no_event_ids exact_refs
validate_coordinator_event_reference_semantics s e =
    let refs = elems e.referenced_document_ids in
    guard (not (contains_string refs e.event_id))
      (errorf "referenced_document_ids must not self-reference event_id" [])
    >> (no_event_ids refs
        >> (guard (contains_string refs s.manifest.case_id)
              (errorf "referenced_document_ids must contain case id" [])
            >> (guard (contains_string refs document_id_case_workflow_state)
                  (errorf "referenced_document_ids must contain case-workflow-state" [])
                >> exact_refs e.event_type s e refs)))
