-- ===== src/Coordinator/Commands/Consultation/Equal.antt =====
-- `consultationsCanonicallyEqual` of internal/recovery/coordinator/consultation.go: the canonical JSON
-- of two consultations is the same exactly when their fields but the time are.
use effexor_win_doctor.Prelude.{
  Bool, true, false, Option, none, some, List, [], ◌∷◌, ◌&&◌, ◌==◌, int_eq,
}
use effexor_win_doctor.Domain.Consultations.{
  AgentConsultation, AdvisoryHypothesis, RetrievedSource, ProviderMetadata,
}
use effexor_win_doctor.Coordinator.Merge.{same_slice, same_bool}

-- A JSON array of documents.
unfoldable pub same_items : {A : Type 0} → (A → A → Bool) → List A → List A → Bool
same_items same [] [] = true
same_items same [] (b ∷ bs) = false
same_items same (a ∷ xs) [] = false
same_items same (a ∷ xs) (b ∷ ys) = same a b && same_items same xs ys

-- A slice of documents, which may be nil.
unfoldable pub same_documents :
    {A : Type 0} → (A → A → Bool) → Option (List A) → Option (List A) → Bool
unfolding same_items
same_documents same none none = true
same_documents same none (some ys) = false
same_documents same (some xs) none = false
same_documents same (some xs) (some ys) = same_items same xs ys

unfoldable pub same_hypothesis : AdvisoryHypothesis → AdvisoryHypothesis → Bool
same_hypothesis a b =
    a.hypothesis_id == b.hypothesis_id
    && a.code == b.code
    && a.title == b.title
    && a.rationale == b.rationale
    && a.confidence == b.confidence
    && same_slice a.supporting_finding_refs b.supporting_finding_refs
    && same_slice a.supporting_evidence_refs b.supporting_evidence_refs
    && same_slice a.contradicting_evidence_refs b.contradicting_evidence_refs
    && same_slice a.limitations b.limitations
    && same_bool a.advisory b.advisory

unfoldable pub same_source : RetrievedSource → RetrievedSource → Bool
same_source a b = a.url == b.url && a.domain == b.domain && a.title == b.title

unfoldable pub same_provider : ProviderMetadata → ProviderMetadata → Bool
same_provider a b = a.provider_name == b.provider_name && a.model_name == b.model_name

unfoldable pub consultations_canonically_equal : AgentConsultation → AgentConsultation → Bool
unfolding same_documents same_hypothesis same_source same_provider
consultations_canonically_equal a b =
    a.schema_name == b.schema_name
    && a.schema_version == b.schema_version
    && a.consultation_id == b.consultation_id
    && a.case_id == b.case_id
    && a.request_id == b.request_id
    && a.runtime_id == b.runtime_id
    && a.runtime_version == b.runtime_version
    && a.source_commit_id == b.source_commit_id
    && a.input_digest == b.input_digest
    && a.status == b.status
    && int_eq a.round_count b.round_count
    && a.topology_id == b.topology_id
    && same_slice a.finding_refs b.finding_refs
    && same_slice a.evidence_refs b.evidence_refs
    && same_slice a.target_refs b.target_refs
    && same_documents same_hypothesis a.hypotheses b.hypotheses
    && same_slice a.next_diagnostic_steps b.next_diagnostic_steps
    && same_documents same_source a.retrieved_sources b.retrieved_sources
    && same_slice a.limitations b.limitations
    && same_provider a.provider_metadata b.provider_metadata
    && same_bool a.insufficient_evidence b.insufficient_evidence
