-- ===== src/Coordinator/Acquire.antt =====
-- Acquired evidence, internal/recovery/coordinator/acquire.go: who may acquire, when, and how a
-- snapshot takes what was acquired. The JSON of two documents is the same when their fields are; a
-- Go map's entries are in no order, and an empty payload is Go's nil. A raw payload is compacted.
pub mod Appended
pub mod Example
pub mod RequestId
use effexor_win_doctor.Prelude.{
  ℕ, String, Bool, true, false, Option, none, some, List, [], ◌∷◌, ◌++◌, ◌&&◌, ◌||◌, not, ◌==◌, eqb,
  all, any, if◌then◌else◌, Result, ok, err, guard, map_err, ◌>>=◌, ◌>>◌, codes, contains_string,
  int_eq,
}
use effexor_win_doctor.Domain.Workflow.{WorkflowStateName, evidence_collected, analyzed}
use effexor_win_doctor.Domain.Events.{ActorType, system, technician}
use effexor_win_doctor.Domain.Documents.{Target}
use effexor_win_doctor.Domain.Json.{valid}
use effexor_win_doctor.Domain.Evidence.{ArtifactRef, EvidenceBundle}
use effexor_win_doctor.Domain.Records.{EvidenceAcquisitionRecord}
use effexor_win_doctor.CaseStore.Snapshot.{Snapshot}
use effexor_win_doctor.CaseStore.Snapshot.Sets.{sort}
use effexor_win_doctor.CaseStore.Snapshot.Validation.{validate}
use effexor_win_doctor.Coordinator.{
  CommandError, invalid_argument, invalid_snapshot, transition, actor_not_allowed, marshal_error,
  current_state,
}
use effexor_win_doctor.Coordinator.State.{default_actor}
use effexor_win_doctor.Coordinator.Merge.{same_slice}

acquisition_state : WorkflowStateName → Bool
acquisition_state evidence_collected = true
acquisition_state analyzed = true
acquisition_state _ = false

-- `requireAcquisitionAllowed`
unfoldable pub require_acquisition_allowed : Snapshot → String → Result CommandError (Unit {0})
unfolding acquisition_state
require_acquisition_allowed snap case_id = guard (acquisition_state (current_state snap)) (
    transition (record {
      case_id = case_id;
      from = current_state snap;
      to = evidence_collected;
      reason = "acquisition_not_allowed";
    }))

acquisition_actor : ActorType → Result CommandError ActorType
acquisition_actor system = ok system
acquisition_actor technician = ok technician
acquisition_actor _ = err actor_not_allowed

-- `requireAcquisitionActor`
unfoldable pub require_acquisition_actor : ActorType → Result CommandError ActorType
unfolding acquisition_actor
require_acquisition_actor actor = acquisition_actor (default_actor actor system)

-- `findAcquisition`: the first record of a request.
unfoldable pub find_acquisition :
    List EvidenceAcquisitionRecord → String → Option EvidenceAcquisitionRecord
find_acquisition [] request_id = none
find_acquisition (a ∷ acqs) request_id =
    if a.request_id == request_id then some a else find_acquisition acqs request_id

-- `evidenceByID`: the first bundle with one of the ids.
unfoldable pub evidence_by_id : List EvidenceBundle → List String → Option EvidenceBundle
evidence_by_id [] ids = none
evidence_by_id (e ∷ es) ids =
    if contains_string ids e.evidence_id then some e else evidence_by_id es ids

-- `compact` of encoding/json with its escapes; the flags are "in a string" and "after a backslash".
compact : Bool → Bool → List ℕ → List ℕ
compact quoted escaped [] = []
compact quoted escaped (c ∷ cs) =
    let rest =
      compact (if eqb c b'"' && not escaped then not quoted else quoted)
        (quoted && eqb c 92 && not escaped) cs in
    if not quoted && (eqb c 32 || eqb c 9 || eqb c 10 || eqb c 13)
    then rest
    else if eqb c b'<'
    then 92 ∷ codes "u003c" ++ rest
    else if eqb c b'>'
    then 92 ∷ codes "u003e" ++ rest
    else if eqb c b'&'
    then 92 ∷ codes "u0026" ++ rest
    else if eqb c 8232
    then 92 ∷ codes "u2028" ++ rest
    else if eqb c 8233
    then 92 ∷ codes "u2029" ++ rest
    else c ∷ rest

-- `json.Marshal` of a raw payload.
unfoldable pub raw_message : String → Result CommandError (List ℕ)
unfolding compact
raw_message facts =
    if facts == ""
    then ok (codes "null")
    else if valid facts
    then ok (compact false false (codes facts))
    else err marshal_error

same_codes : List ℕ → List ℕ → Bool
same_codes [] [] = true
same_codes [] (d ∷ ds) = false
same_codes (c ∷ cs) [] = false
same_codes (c ∷ cs) (d ∷ ds) = eqb c d && same_codes cs ds

has_entry : List (String × String) → String × String → Bool
has_entry m (k, v) = any (λ e. e.0 == k && e.1 == v) m

same_map : Option (List (String × String)) → Option (List (String × String)) → Bool
unfolding has_entry
same_map none none = true
same_map none (some n) = false
same_map (some m) none = false
same_map (some m) (some n) = all (has_entry n) m && all (has_entry m) n

unfoldable pub same_targets : Target → Target → Result CommandError Bool
unfolding same_map
same_targets a b = ok (
    a.schema_name == b.schema_name
    && a.schema_version == b.schema_version
    && a.target_id == b.target_id
    && a.target_type == b.target_type
    && a.discovered_at == b.discovered_at
    && a.display_name == b.display_name
    && same_map a.stable_identity b.stable_identity
    && same_map a.runtime_locators b.runtime_locators
    && same_slice a.capabilities b.capabilities
    && same_slice a.limitations b.limitations)

same_artifact : ArtifactRef → ArtifactRef → Bool
same_artifact a b =
    a.artifact_id == b.artifact_id
    && a.kind == b.kind
    && a.relative_path == b.relative_path
    && a.sha256 == b.sha256
    && int_eq a.size_bytes b.size_bytes
    && a.created_at == b.created_at
    && a.media_classification == b.media_classification

same_artifact_list : List ArtifactRef → List ArtifactRef → Bool
unfolding same_artifact
same_artifact_list [] [] = true
same_artifact_list [] (b ∷ ys) = false
same_artifact_list (a ∷ xs) [] = false
same_artifact_list (a ∷ xs) (b ∷ ys) = same_artifact a b && same_artifact_list xs ys

same_artifacts : Option (List ArtifactRef) → Option (List ArtifactRef) → Bool
unfolding same_artifact_list
same_artifacts none none = true
same_artifacts none (some ys) = false
same_artifacts (some xs) none = false
same_artifacts (some xs) (some ys) = same_artifact_list xs ys

unfoldable pub same_evidence : EvidenceBundle → EvidenceBundle → Result CommandError Bool
unfolding same_codes same_artifacts
same_evidence a b = raw_message a.facts >>= λ prev. raw_message b.facts >>= λ next. ok (
    a.schema_name == b.schema_name
    && a.schema_version == b.schema_version
    && a.evidence_id == b.evidence_id
    && a.case_id == b.case_id
    && a.target_id == b.target_id
    && a.collector == b.collector
    && a.collector_version == b.collector_version
    && a.captured_at == b.captured_at
    && a.source_status == b.source_status
    && a.facts_schema == b.facts_schema
    && same_codes prev next
    && same_artifacts a.artifacts b.artifacts
    && same_slice a.limitations b.limitations)

-- The loop of `mergeTargetsAppendOnly` and `mergeEvidenceAppendOnly`: `index` has the last position
-- of an id.
module _ {A : Type 0} (id : A → String) (same : A → A → Result CommandError Bool)
    (conflict : CommandError) where
  last_with : List A → String → Option A → Option A
  last_with [] wanted found = found
  last_with (x ∷ xs) wanted found = last_with xs wanted (if id x == wanted then some x else found)

  merged_once :
      Option A
      → A
      → Result CommandError (List A)
      → Result CommandError (List A)
      → Result CommandError (List A)
  merged_once none x dropped appended = appended
  merged_once (some prev) x dropped appended =
      same prev x >>= λ equal. guard equal conflict >> dropped

  unfoldable pub merge_append_only : List A → List A → Result CommandError (List A)
  unfolding last_with merged_once
  merge_append_only out [] = ok out
  merge_append_only out (x ∷ incoming) =
      merged_once (last_with out (id x) none) x (merge_append_only out incoming)
        (merge_append_only (out ++ x ∷ []) incoming)

unfoldable pub merge_targets_append_only :
    List Target → List Target → Result CommandError (List Target)
merge_targets_append_only =
    merge_append_only (λ (t : Target). t.target_id) same_targets
      (invalid_argument "target %s content conflict")

unfoldable pub merge_evidence_append_only :
    List EvidenceBundle → List EvidenceBundle → Result CommandError (List EvidenceBundle)
merge_evidence_append_only =
    merge_append_only (λ (e : EvidenceBundle). e.evidence_id) same_evidence
      (invalid_argument "evidence %s content conflict")

target_id_list : List Target → List String
target_id_list [] = []
target_id_list (t ∷ ts) = t.target_id ∷ target_id_list ts

-- `targetIDs`
unfoldable pub target_ids : List Target → List String
unfolding target_id_list
target_ids ts = sort (target_id_list ts)

evidence_id_list : List EvidenceBundle → List String
evidence_id_list [] = []
evidence_id_list (e ∷ es) = e.evidence_id ∷ evidence_id_list es

-- `inputEvidenceIDs`
unfoldable pub input_evidence_ids : Snapshot → List String
unfolding evidence_id_list
input_evidence_ids snap = sort (evidence_id_list snap.evidence_bundles)

unfoldable pub no_clash :
    List EvidenceAcquisitionRecord → EvidenceAcquisitionRecord → Result CommandError (Unit {0})
no_clash [] acq = ok tt
no_clash (a ∷ acqs) acq = do
  guard (not (a.acquisition_id == acq.acquisition_id))
      (invalid_argument "acquisition_id already exists")
  guard (not (a.request_id == acq.request_id)) (invalid_argument "request_id already exists")
  no_clash acqs acq

abbrev pub with_acquired :
    Snapshot → List Target → List EvidenceBundle → EvidenceAcquisitionRecord → Snapshot
with_acquired snap targets evidence acq = record snap {
  manifest = record snap.manifest { target_ids = some (target_ids targets) };
  targets = targets;
  evidence_bundles = evidence;
  evidence_acquisitions = snap.evidence_acquisitions ++ acq ∷ [];
}

-- `appendAcquisition`
unfoldable pub append_acquisition :
    Snapshot
    → List Target
    → List EvidenceBundle
    → EvidenceAcquisitionRecord
    → Result CommandError Snapshot
append_acquisition snap added_targets added_evidence acq =
    merge_targets_append_only snap.targets added_targets >>= λ targets.
    merge_evidence_append_only snap.evidence_bundles added_evidence >>= λ evidence.
    no_clash snap.evidence_acquisitions acq
    >> (map_err invalid_snapshot (validate (with_acquired snap targets evidence acq))
        >> ok (with_acquired snap targets evidence acq))
