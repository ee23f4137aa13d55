-- ===== src/Domain/CrossRefs.antt =====
-- References between documents, internal/recovery/domain/crossrefs.go and the last function of
-- agent_consultation.go. A set is the list of its members.
use effexor_win_doctor.Prelude.{
  ℕ, String, ◌+◌, List, [], ◌∷◌, ◌++◌, not, ◌==◌, elems, contains_string, ok, guard, ◌>>◌,
}
use effexor_win_doctor.Domain.Errors.{errorf, Check}
use effexor_win_doctor.Domain.Checks.{require_ref, require_refs, indexed, if_set}
use effexor_win_doctor.Domain.Workflow
use effexor_win_doctor.Domain.Workflow.{CaseWorkflowState}
use effexor_win_doctor.Domain.Events
use effexor_win_doctor.Domain.Events.{CoordinatorEvent}
use effexor_win_doctor.Domain.Evidence.{
  EvidenceBundle, Finding, validate_evidence, validate_finding,
}
use effexor_win_doctor.Domain.Plans.{PlanStep, RepairPlan, validate_plan}
use effexor_win_doctor.Domain.Records.{
  ExecutionEvent, VerificationReport, EvidenceAcquisitionRecord, validate_execution,
  validate_verification, validate_acquisition,
}
use effexor_win_doctor.Domain.Consultations.{
  AgentConsultation, AdvisoryHypothesis, validate_consultation,
}

pub record CrossRefs : Type 0 where
  pub case_ids : List String
  pub target_ids : List String
  pub evidence_ids : List String
  pub finding_ids : List String
  pub plan_ids : List String
  pub execution_ids : List String
  pub verification_ids : List String
  pub artifact_ids : List String
  pub coordinator_event_ids : List String
  pub document_ids : List String

unfoldable pub validate_acquisition_refs : EvidenceAcquisitionRecord → CrossRefs → Check
validate_acquisition_refs r refs = do
  validate_acquisition r
  require_ref "case_id" r.case_id refs.case_ids
  require_refs "target_id" (elems r.target_ids) refs.target_ids
  require_refs "input_evidence_id" (elems r.input_evidence_ids) refs.evidence_ids
  require_refs "added_target_id" (elems r.added_target_ids) refs.target_ids
  require_refs "added_evidence_id" (elems r.added_evidence_ids) refs.evidence_ids

unfoldable pub validate_finding_refs : Finding → CrossRefs → Check
validate_finding_refs f refs = do
  validate_finding f
  require_ref "case_id" f.case_id refs.case_ids
  require_refs "evidence_ref" (elems f.evidence_refs) refs.evidence_ids
  require_refs "affected_target_id" (elems f.affected_target_ids) refs.target_ids

abbrev pub step_targets : List PlanStep → List String
step_targets [] = []
step_targets (s ∷ steps) = s.target_id ∷ step_targets steps

unfoldable pub validate_plan_refs : RepairPlan → CrossRefs → Check
validate_plan_refs p refs = do
  validate_plan p
  require_ref "case_id" p.case_id refs.case_ids
  require_refs "finding_ref" (elems p.finding_refs) refs.finding_ids
  require_refs "step.target_id" (step_targets (elems p.steps)) refs.target_ids

unfoldable pub validate_evidence_refs : EvidenceBundle → CrossRefs → Check
validate_evidence_refs e refs = do
  validate_evidence e
  require_ref "case_id" e.case_id refs.case_ids
  require_ref "target_id" e.target_id refs.target_ids

unfoldable pub validate_execution_refs : ExecutionEvent → CrossRefs → Check
validate_execution_refs e refs = do
  validate_execution e
  require_ref "case_id" e.case_id refs.case_ids
  require_ref "target_id" e.target_id refs.target_ids
  if_set e.stdout_artifact (require_ref "stdout_artifact" e.stdout_artifact refs.artifact_ids)
  if_set e.stderr_artifact (require_ref "stderr_artifact" e.stderr_artifact refs.artifact_ids)

unfoldable pub validate_verification_refs : VerificationReport → CrossRefs → Check
validate_verification_refs v refs = do
  validate_verification v
  require_ref "case_id" v.case_id refs.case_ids
  require_ref "execution_id" v.execution_id refs.execution_ids
  require_refs "evidence_ref" (elems v.evidence_refs) refs.evidence_ids

unfoldable pub validate_workflow_refs : CaseWorkflowState → CrossRefs → Check
validate_workflow_refs w refs = do
  Workflow.validate w
  require_ref "case_id" w.case_id refs.case_ids
  if_set w.active_plan_id (require_ref "active_plan_id" w.active_plan_id refs.plan_ids)
  if_set w.active_execution_id
      (require_ref "active_execution_id" w.active_execution_id refs.execution_ids)
  require_ref "last_transition_id" w.last_transition_id refs.coordinator_event_ids

-- The loop over an event's references, with those seen so far.
unfoldable pub check_document_refs : List String → ℕ → List String → List String → Check
check_document_refs known i seen [] = ok tt
check_document_refs known i seen (id ∷ ids) =
    guard (not (id == ""))
      (errorf "%s must not be empty" (indexed "referenced_document_ids" i ∷ []))
    >> (guard (not (contains_string seen id))
          (errorf "referenced_document_ids contains duplicate %q" (id ∷ []))
        >> (require_ref (indexed "referenced_document_ids" i) id known
            >> check_document_refs known (i + 1) (id ∷ seen) ids))

unfoldable pub validate_coordinator_event_refs : CoordinatorEvent → CrossRefs → Check
validate_coordinator_event_refs e refs = do
  Events.validate e
  require_ref "case_id" e.case_id refs.case_ids
  check_document_refs refs.document_ids 0 [] (elems e.referenced_document_ids)

-- `for _, id := range ids { if !known[id] { return … } }` with one message.
all_known : String → List String → List String → List String → Check
all_known message args known [] = ok tt
all_known message args known (id ∷ ids) =
    guard (contains_string known id) (errorf message (args ++ id ∷ []))
    >> all_known message args known ids

check_hypotheses : CrossRefs → List AdvisoryHypothesis → Check
unfolding all_known
check_hypotheses refs [] = ok tt
check_hypotheses refs (h ∷ hs) =
    all_known "hypothesis %q supporting_finding_refs contains unknown finding_id %q"
      (h.hypothesis_id ∷ []) refs.finding_ids (elems h.supporting_finding_refs)
    >> (all_known "hypothesis %q supporting_evidence_refs contains unknown evidence_id %q"
          (h.hypothesis_id ∷ []) refs.evidence_ids (elems h.supporting_evidence_refs)
        >> (all_known "hypothesis %q contradicting_evidence_refs contains unknown evidence_id %q"
              (h.hypothesis_id ∷ []) refs.evidence_ids (elems h.contradicting_evidence_refs)
            >> check_hypotheses refs hs))

unfoldable pub validate_consultation_refs : AgentConsultation → CrossRefs → Check
unfolding check_hypotheses all_known
validate_consultation_refs c refs = do
  validate_consultation c
  guard (contains_string refs.case_ids c.case_id)
      (errorf "case_id %q is not in the snapshot" (c.case_id ∷ []))
  all_known "finding_refs contains unknown finding_id %q" [] refs.finding_ids (elems c.finding_refs)
  all_known "evidence_refs contains unknown evidence_id %q" [] refs.evidence_ids
      (elems c.evidence_refs)
  all_known "target_refs contains unknown target_id %q" [] refs.target_ids (elems c.target_refs)
  check_hypotheses refs (elems c.hypotheses)
