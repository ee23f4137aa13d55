-- ===== src/Domain/Evidence.antt =====
-- Evidence and findings, internal/recovery/domain: artifact.go, evidence.go and finding.go.
use effexor_win_doctor.Prelude.{
  ℕ, String, ◌+◌, ℤ, is_negative, Bool, Option, List, [], ◌∷◌, ◌&&◌, not, ◌==◌, elems, is_empty, ok,
  guard, map_err, ◌>>◌, itoa,
}
use effexor_win_doctor.Domain.Errors.{errorf, wrap, Check}
use effexor_win_doctor.Domain.Json.{valid}
use effexor_win_doctor.Domain.Patterns.{
  re_case_id, re_target_id, re_evidence_id, re_finding_id, re_artifact_id,
}
use effexor_win_doctor.Domain.Checks.{
  require_enum, require_match, require_rfc3339, require_schema, require_present, require_each,
  require_non_empty, require_sha256, validate_relative_path,
}

pub record ArtifactRef : Type 0 where
  pub artifact_id : String
  pub kind : String
  pub relative_path : String
  pub sha256 : String
  pub size_bytes : ℤ
  pub created_at : String
  pub media_classification : String

abbrev artifact_kinds : List String
artifact_kinds =
    "log" ∷ "json" ∷ "binary" ∷ "screenshot" ∷ "report" ∷ "stdout" ∷ "stderr" ∷ "other" ∷ []

abbrev media_classifications : List String
media_classifications = "case_local" ∷ "technician" ∷ "ephemeral" ∷ "export" ∷ []

validate_artifact : ArtifactRef → Check
unfolding require_match require_enum validate_relative_path require_sha256 require_rfc3339
    re_artifact_id
validate_artifact a = do
  require_match "artifact_id" a.artifact_id re_artifact_id
  require_enum "kind" a.kind artifact_kinds
  validate_relative_path "relative_path" a.relative_path
  require_sha256 "sha256" a.sha256
  guard (not (is_negative a.size_bytes)) (errorf "size_bytes must be >= 0" [])
  require_rfc3339 "created_at" a.created_at
  require_enum "media_classification" a.media_classification media_classifications

validate_artifacts : ℕ → List ArtifactRef → Check
unfolding validate_artifact
validate_artifacts i [] = ok tt
validate_artifacts i (a ∷ as') =
    map_err (wrap "artifacts[%d]: %w" (itoa i ∷ [])) (validate_artifact a)
    >> validate_artifacts (i + 1) as'

-- `facts` is the raw JSON text.
pub record EvidenceBundle : Type 0 where
  pub schema_name : String
  pub schema_version : String
  pub evidence_id : String
  pub case_id : String
  pub target_id : String
  pub collector : String
  pub collector_version : String
  pub captured_at : String
  pub source_status : String
  pub facts_schema : String
  pub facts : String
  pub artifacts : Option (List ArtifactRef)
  pub limitations : Option (List String)

abbrev source_statuses : List String
source_statuses = "ok" ∷ "partial" ∷ "unavailable" ∷ "error" ∷ []

unfoldable pub validate_evidence : EvidenceBundle → Check
unfolding require_schema require_match require_non_empty require_rfc3339 require_enum
    require_present validate_artifacts valid re_evidence_id re_case_id re_target_id
validate_evidence e = do
  require_schema e.schema_name e.schema_version "evidence-bundle"
  require_match "evidence_id" e.evidence_id re_evidence_id
  require_match "case_id" e.case_id re_case_id
  require_match "target_id" e.target_id re_target_id
  require_non_empty "collector" e.collector
  require_non_empty "collector_version" e.collector_version
  require_rfc3339 "captured_at" e.captured_at
  require_enum "source_status" e.source_status source_statuses
  guard (not (e.facts == "")) (errorf "facts is required" [])
  guard (valid e.facts) (errorf "facts must be valid JSON" [])
  require_present "artifacts" e.artifacts
  validate_artifacts 0 (elems e.artifacts)
  require_present "limitations" e.limitations

pub record Finding : Type 0 where
  pub schema_name : String
  pub schema_version : String
  pub finding_id : String
  pub case_id : String
  pub severity : String
  pub confidence : String
  pub title : String
  pub rationale : String
  pub evidence_refs : Option (List String)
  pub affected_target_ids : Option (List String)
  pub recommended_workflows : Option (List String)
  pub limitations : Option (List String)
  pub insufficient_evidence : Bool

abbrev severities : List String
severities = "info" ∷ "low" ∷ "medium" ∷ "high" ∷ "critical" ∷ []

abbrev confidences : List String
confidences = "low" ∷ "medium" ∷ "high" ∷ []

unfoldable pub validate_finding : Finding → Check
unfolding require_schema require_match require_enum require_non_empty require_present require_each
    re_finding_id re_case_id re_evidence_id re_target_id
validate_finding f = do
  require_schema f.schema_name f.schema_version "finding"
  require_match "finding_id" f.finding_id re_finding_id
  require_match "case_id" f.case_id re_case_id
  require_enum "severity" f.severity severities
  require_enum "confidence" f.confidence confidences
  require_non_empty "title" f.title
  require_non_empty "rationale" f.rationale
  require_present "evidence_refs" f.evidence_refs
  guard (not (is_empty (elems f.evidence_refs) && not f.insufficient_evidence))
      (errorf "finding without evidence_refs must set insufficient_evidence=true" [])
  require_each "evidence_refs" re_evidence_id 0 (elems f.evidence_refs)
  require_present "affected_target_ids" f.affected_target_ids
  require_each "affected_target_ids" re_target_id 0 (elems f.affected_target_ids)
  require_present "recommended_workflows" f.recommended_workflows
  require_present "limitations" f.limitations
