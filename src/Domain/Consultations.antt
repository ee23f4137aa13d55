-- ===== src/Domain/Consultations.antt =====
-- Advisory consultations, internal/recovery/domain/agent_consultation.go.
use Prim.Native.String.{len}
use text.Mathlib.Text.{starts_with}
use effexor_win_doctor.Prelude.{
  ℕ, String, ◌+◌, str_append, ℤ, pos, negsuc, Bool, false, Option, List, [], ◌∷◌, ◌&&◌, ◌||◌, not,
  leb, ltb, elems, is_some, is_empty, length, contains_string, ok, guard, ◌>>◌, to_lower,
}
use effexor_win_doctor.Domain.Errors.{errorf, Check}
use effexor_win_doctor.Domain.Patterns.{
  re_case_id, re_target_id, re_evidence_id, re_finding_id, re_consultation_id,
  re_consultation_request_id, re_semver, re_commit_id, re_topology_id, re_operation_id,
  re_hypothesis_id, re_reason_code,
}
use effexor_win_doctor.Domain.Checks.{
  require_enum, require_match, require_rfc3339, require_schema, require_each, require_non_empty,
  require_sha256, indexed, if_set,
}

pub record AdvisoryHypothesis : Type 0 where
  pub hypothesis_id : String
  pub code : String
  pub title : String
  pub rationale : String
  pub confidence : String
  pub supporting_finding_refs : Option (List String)
  pub supporting_evidence_refs : Option (List String)
  pub contradicting_evidence_refs : Option (List String)
  pub limitations : Option (List String)
  pub advisory : Bool

pub record RetrievedSource : Type 0 where
  pub url : String
  pub domain : String
  pub title : String

pub record ProviderMetadata : Type 0 where
  pub provider_name : String
  pub model_name : String

pub record AgentConsultation : Type 0 where
  pub schema_name : String
  pub schema_version : String
  pub consultation_id : String
  pub case_id : String
  pub request_id : String
  pub runtime_id : String
  pub runtime_version : String
  pub source_commit_id : String
  pub input_digest : String
  pub generated_at : String
  pub status : String
  pub round_count : ℤ
  pub topology_id : String
  pub finding_refs : Option (List String)
  pub evidence_refs : Option (List String)
  pub target_refs : Option (List String)
  pub hypotheses : Option (List AdvisoryHypothesis)
  pub next_diagnostic_steps : Option (List String)
  pub retrieved_sources : Option (List RetrievedSource)
  pub limitations : Option (List String)
  pub provider_metadata : ProviderMetadata
  pub insufficient_evidence : Bool

abbrev consultation_statuses : List String
consultation_statuses = "completed" ∷ "needs_more_evidence" ∷ "blocked" ∷ "failed" ∷ []

abbrev hypothesis_confidences : List String
hypothesis_confidences = "low" ∷ "medium" ∷ "high" ∷ []

require_slice {ℓ} : {A : Type ℓ} → String → String → Option A → Check
require_slice prefix field values =
    guard (is_some values) (errorf "%s.%s is required" (prefix ∷ field ∷ []))

validate_hypothesis : String → AdvisoryHypothesis → Check
unfolding require_slice
validate_hypothesis prefix h = do
  require_match (str_append prefix ".hypothesis_id") h.hypothesis_id re_hypothesis_id
  require_match (str_append prefix ".code") h.code re_reason_code
  require_non_empty (str_append prefix ".title") h.title
  require_non_empty (str_append prefix ".rationale") h.rationale
  require_enum (str_append prefix ".confidence") h.confidence hypothesis_confidences
  guard h.advisory (errorf "%s.advisory must be true" (prefix ∷ []))
  require_slice prefix "supporting_finding_refs" h.supporting_finding_refs
  require_slice prefix "supporting_evidence_refs" h.supporting_evidence_refs
  require_slice prefix "contradicting_evidence_refs" h.contradicting_evidence_refs
  require_slice prefix "limitations" h.limitations
  require_each (str_append prefix ".supporting_finding_refs") re_finding_id 0
      (elems h.supporting_finding_refs)
  require_each (str_append prefix ".supporting_evidence_refs") re_evidence_id 0
      (elems h.supporting_evidence_refs)
  require_each (str_append prefix ".contradicting_evidence_refs") re_evidence_id 0
      (elems h.contradicting_evidence_refs)

validate_hypotheses : ℕ → List String → List AdvisoryHypothesis → Check
unfolding validate_hypothesis
validate_hypotheses i seen [] = ok tt
validate_hypotheses i seen (h ∷ hs) =
    validate_hypothesis (indexed "hypotheses" i) h
    >> (guard (not (contains_string seen h.hypothesis_id))
          (errorf "duplicate hypothesis_id %q" (h.hypothesis_id ∷ []))
        >> validate_hypotheses (i + 1) (h.hypothesis_id ∷ seen) hs)

validate_steps : ℕ → List String → List String → Check
validate_steps i seen [] = ok tt
validate_steps i seen (s ∷ ss) =
    require_match (indexed "next_diagnostic_steps" i) s re_operation_id
    >> (guard (not (contains_string seen s))
          (errorf "duplicate next_diagnostic_steps entry %q" (s ∷ []))
        >> validate_steps (i + 1) (s ∷ seen) ss)

validate_source : String → RetrievedSource → Check
unfolding to_lower
validate_source prefix s = do
  require_non_empty (str_append prefix ".url") s.url
  guard (not (ltb (len s.url) 12 || not (starts_with (to_lower s.url) "https://")))
      (errorf "%s.url must be https" (prefix ∷ []))
  require_non_empty (str_append prefix ".domain") s.domain

validate_sources : ℕ → List RetrievedSource → Check
unfolding validate_source
validate_sources i [] = ok tt
validate_sources i (s ∷ ss) =
    validate_source (indexed "retrieved_sources" i) s >> validate_sources (i + 1) ss

rounds_in_range : ℤ → Bool
rounds_in_range (pos n) = leb 1 n && leb n 3
rounds_in_range (negsuc n) = false

unfoldable pub validate_consultation : AgentConsultation → Check
unfolding validate_hypotheses validate_steps validate_sources rounds_in_range
validate_consultation c = do
  require_schema c.schema_name c.schema_version "agent-consultation"
  require_match "consultation_id" c.consultation_id re_consultation_id
  require_match "case_id" c.case_id re_case_id
  require_match "request_id" c.request_id re_consultation_request_id
  require_non_empty "runtime_id" c.runtime_id
  require_match "runtime_version" c.runtime_version re_semver
  require_match "source_commit_id" c.source_commit_id re_commit_id
  require_sha256 "input_digest" c.input_digest
  require_rfc3339 "generated_at" c.generated_at
  require_enum "status" c.status consultation_statuses
  guard (rounds_in_range c.round_count) (errorf "round_count must be between 1 and 3" [])
  if_set c.topology_id (require_match "topology_id" c.topology_id re_topology_id)
  guard (is_some c.finding_refs && is_some c.evidence_refs && is_some c.target_refs)
      (errorf "finding_refs, evidence_refs, and target_refs are required" [])
  guard
      (is_some c.hypotheses
        && is_some c.next_diagnostic_steps
        && is_some c.retrieved_sources
        && is_some c.limitations)
      (errorf "hypotheses, next_diagnostic_steps, retrieved_sources, and limitations are required"
        [])
  guard (not (is_empty (elems c.limitations) || ltb 16 (length (elems c.limitations))))
      (errorf "limitations must contain between 1 and 16 entries" [])
  guard
      (not (
        is_empty (elems c.finding_refs)
        && is_empty (elems c.evidence_refs)
        && not c.insufficient_evidence))
      (errorf
        "consultation without finding_refs and evidence_refs must set insufficient_evidence=true"
        [])
  require_each "finding_refs" re_finding_id 0 (elems c.finding_refs)
  require_each "evidence_refs" re_evidence_id 0 (elems c.evidence_refs)
  require_each "target_refs" re_target_id 0 (elems c.target_refs)
  guard (not (ltb 8 (length (elems c.hypotheses)))) (errorf "hypotheses exceeds 8 entries" [])
  validate_hypotheses 0 [] (elems c.hypotheses)
  guard (not (ltb 8 (length (elems c.next_diagnostic_steps))))
      (errorf "next_diagnostic_steps exceeds 8 entries" [])
  validate_steps 0 [] (elems c.next_diagnostic_steps)
  guard (not (ltb 16 (length (elems c.retrieved_sources))))
      (errorf "retrieved_sources exceeds 16 entries" [])
  validate_sources 0 (elems c.retrieved_sources)
  require_non_empty "provider_metadata.provider_name" c.provider_metadata.provider_name
