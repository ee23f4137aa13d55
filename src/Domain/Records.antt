-- ===== src/Domain/Records.antt =====
-- The records of internal/recovery/domain: execution.go, verification.go and
-- evidence_acquisition.go.
use Prim.Native.String.{len}
use effexor_win_doctor.Prelude.{
  ℕ, String, ◌+◌, str_append, ℤ, Option, none, some, List, [], ◌∷◌, ◌&&◌, ◌||◌, not, ltb, ◌==◌,
  if◌then◌else◌, elems, is_empty, is_none, contains_string, ok, err, guard, ◌>>◌, trim_space, itoa,
}
use effexor_win_doctor.Domain.Errors.{errorf, Check}
use effexor_win_doctor.Domain.Patterns.{
  re_case_id, re_target_id, re_evidence_id, re_artifact_id, re_execution_id, re_verification_id,
  re_operation_id, re_semver, re_acquisition_id, re_acquisition_request_id, re_commit_id,
  re_producer_id,
}
use effexor_win_doctor.Domain.Checks.{
  require_enum, require_match, require_rfc3339, require_schema, require_present, require_each,
  require_non_empty, require_sha256, require_unique_id_list, indexed, if_set,
}
use effexor_win_doctor.Domain.Events.{ActorType, actor_text}

pub record ExecutionEvent : Type 0 where
  pub schema_name : String
  pub schema_version : String
  pub execution_id : String
  pub case_id : String
  pub operation_id : String
  pub operation_version : String
  pub target_id : String
  pub started_at : String
  pub completed_at : Option String
  pub status : String
  pub exit_code : Option ℤ
  pub stdout_artifact : String
  pub stderr_artifact : String
  pub changed_resources : Option (List String)
  pub error : String

abbrev terminal_execution_statuses : List String
terminal_execution_statuses = "succeeded" ∷ "failed" ∷ "cancelled" ∷ "timed_out" ∷ []

abbrev execution_statuses : List String
execution_statuses = "started" ∷ terminal_execution_statuses

require_completed : String → Option String → Check
unfolding trim_space
require_completed status none =
    err (errorf "terminal status %q requires completed_at" (status ∷ []))
require_completed status (some at) = do
  guard (not (trim_space at == ""))
      (errorf "terminal status %q requires completed_at" (status ∷ []))
  require_rfc3339 "completed_at" at

-- The first switch: when the record may say that the operation has ended.
completion_rules : ExecutionEvent → Check
unfolding require_completed
completion_rules e =
    if e.status == "started"
    then (do
      guard (is_none e.completed_at)
          (errorf "status=started requires completed_at to be null/absent" [])
      guard (is_none e.exit_code) (errorf "status=started requires exit_code to be null" []))
    else (do
      guard (contains_string terminal_execution_statuses e.status)
          (errorf "status %q is not a known terminal status" (e.status ∷ []))
      require_completed e.status e.completed_at)

-- The second switch: which statuses have an error.
error_rules : ExecutionEvent → Check
unfolding trim_space
error_rules e =
    if e.status == "succeeded"
    then guard (trim_space e.error == "")
        (errorf "status=succeeded requires error to be empty/absent" [])
    else if e.status == "failed" || e.status == "timed_out"
    then guard (not (trim_space e.error == ""))
        (errorf "status=%s requires a non-empty error" (e.status ∷ []))
    else ok tt

validate_lifecycle : ExecutionEvent → Check
unfolding completion_rules error_rules
validate_lifecycle e = do completion_rules e; error_rules e

unfoldable pub validate_execution : ExecutionEvent → Check
unfolding validate_lifecycle
validate_execution e = do
  require_schema e.schema_name e.schema_version "execution-event"
  require_match "execution_id" e.execution_id re_execution_id
  require_match "case_id" e.case_id re_case_id
  require_match "operation_id" e.operation_id re_operation_id
  guard (re_semver e.operation_version)
      (errorf "operation_version must be semver MAJOR.MINOR.PATCH" [])
  require_match "target_id" e.target_id re_target_id
  require_rfc3339 "started_at" e.started_at
  require_enum "status" e.status execution_statuses
  if_set e.stdout_artifact (require_match "stdout_artifact" e.stdout_artifact re_artifact_id)
  if_set e.stderr_artifact (require_match "stderr_artifact" e.stderr_artifact re_artifact_id)
  require_present "changed_resources" e.changed_resources
  validate_lifecycle e

pub record ConditionCheck : Type 0 where
  pub name : String
  pub status : String
  pub detail : String

abbrev condition_statuses : List String
condition_statuses = "met" ∷ "not_met" ∷ "unavailable" ∷ []

validate_conditions : String → ℕ → List ConditionCheck → Check
validate_conditions field i [] = ok tt
validate_conditions field i (c ∷ cs) =
    require_non_empty (str_append (indexed field i) ".name") c.name
    >> (require_enum (str_append (indexed field i) ".status") c.status condition_statuses
        >> validate_conditions field (i + 1) cs)

pub record VerificationReport : Type 0 where
  pub schema_name : String
  pub schema_version : String
  pub verification_id : String
  pub case_id : String
  pub execution_id : String
  pub verifier : String
  pub verified_at : String
  pub expected_conditions : Option (List ConditionCheck)
  pub observed_conditions : Option (List ConditionCheck)
  pub status : String
  pub regressions : Option (List String)
  pub remaining_risks : Option (List String)
  pub evidence_refs : Option (List String)

abbrev verification_statuses : List String
verification_statuses =
    "resolved" ∷ "partially_resolved" ∷ "not_resolved" ∷ "regressed" ∷ "inconclusive" ∷ []

unfoldable pub validate_verification : VerificationReport → Check
unfolding validate_conditions
validate_verification v = do
  require_schema v.schema_name v.schema_version "verification-report"
  require_match "verification_id" v.verification_id re_verification_id
  require_match "case_id" v.case_id re_case_id
  require_match "execution_id" v.execution_id re_execution_id
  require_non_empty "verifier" v.verifier
  require_rfc3339 "verified_at" v.verified_at
  require_present "expected_conditions" v.expected_conditions
  validate_conditions "expected_conditions" 0 (elems v.expected_conditions)
  require_present "observed_conditions" v.observed_conditions
  validate_conditions "observed_conditions" 0 (elems v.observed_conditions)
  require_enum "status" v.status verification_statuses
  require_present "regressions" v.regressions
  require_present "remaining_risks" v.remaining_risks
  require_present "evidence_refs" v.evidence_refs
  require_each "evidence_refs" re_evidence_id 0 (elems v.evidence_refs)

pub record EvidenceAcquisitionRecord : Type 0 where
  pub schema_name : String
  pub schema_version : String
  pub acquisition_id : String
  pub case_id : String
  pub request_id : String
  pub source_commit_id : String
  pub producer_type : String
  pub producer_id : String
  pub producer_version : String
  pub actor_type : ActorType
  pub acquired_at : String
  pub target_ids : Option (List String)
  pub input_evidence_ids : Option (List String)
  pub added_target_ids : Option (List String)
  pub added_evidence_ids : Option (List String)
  pub parameters_sha256 : String
  pub result_sha256 : String
  pub limitations : Option (List String)

abbrev producer_types : List String
producer_types = "target_resolver" ∷ "read_operation" ∷ "technician_selection" ∷ []

check_limitations : ℕ → List String → Check
check_limitations i [] = ok tt
check_limitations i (l ∷ ls) =
    guard (not (l == "")) (errorf "limitations[%d] must not be empty" (itoa i ∷ []))
    >> (guard (not (ltb 512 (len l)))
          (errorf "limitations[%d] exceeds 512 characters" (itoa i ∷ []))
        >> check_limitations (i + 1) ls)

unfoldable pub validate_acquisition : EvidenceAcquisitionRecord → Check
unfolding check_limitations
validate_acquisition r = do
  require_schema r.schema_name r.schema_version "evidence-acquisition-record"
  require_match "acquisition_id" r.acquisition_id re_acquisition_id
  require_match "case_id" r.case_id re_case_id
  require_match "request_id" r.request_id re_acquisition_request_id
  require_match "source_commit_id" r.source_commit_id re_commit_id
  require_enum "producer_type" r.producer_type producer_types
  require_match "producer_id" r.producer_id re_producer_id
  require_match "producer_version" r.producer_version re_semver
  require_enum "actor_type" (actor_text r.actor_type) ("system" ∷ "technician" ∷ [])
  require_rfc3339 "acquired_at" r.acquired_at
  require_unique_id_list "target_ids" r.target_ids re_target_id
  require_unique_id_list "input_evidence_ids" r.input_evidence_ids re_evidence_id
  require_unique_id_list "added_target_ids" r.added_target_ids re_target_id
  require_unique_id_list "added_evidence_ids" r.added_evidence_ids re_evidence_id
  guard (not (is_empty (elems r.added_target_ids) && is_empty (elems r.added_evidence_ids)))
      (errorf "added_target_ids and added_evidence_ids must not both be empty" [])
  require_sha256 "parameters_sha256" r.parameters_sha256
  require_sha256 "result_sha256" r.result_sha256
  require_present "limitations" r.limitations
  check_limitations 0 (elems r.limitations)
