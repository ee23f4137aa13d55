-- ===== src/Coordinator/Commands/BootAnalysis.antt =====
-- `CommitBootDoctorAnalysis` of internal/recovery/coordinator/bootdoctor.go. Decoding a topology
-- (`json.Unmarshal`) and SHA-256 are parameters. The source hashes a canonical request too, and does
-- not use the hash.
pub mod Selected
pub mod Held
pub mod Committed
pub mod Standing
pub mod Repeated
pub mod Example
use Prim.Native.String.{compare}
use text.Mathlib.Text.{is_lt}
use effexor_win_doctor.Prelude.{
  String, Bool, true, false, Option, none, some, List, [], ◌∷◌, ◌&&◌, ◌||◌, not, ◌==◌, is_empty,
  if◌then◌else◌, map, Result, ok, err, guard, map_err, ◌>>=◌, ◌>>◌,
}
use effexor_win_doctor.Domain.Documents.{Target}
use effexor_win_doctor.Domain.Events.{
  ActorType, CoordinatorEventType, CoordinatorEvent, deterministic_analyzer, llm_advisor,
  analysis_committed,
}
use effexor_win_doctor.Domain.Evidence.{EvidenceBundle, Finding}
use effexor_win_doctor.Domain.Topology.{WindowsBootTopology}
use effexor_win_doctor.Domain.Topology.Validation.{validate_topology}
use effexor_win_doctor.BootDoctor.Analyze.{Input, analyze}
use effexor_win_doctor.CaseStore.Snapshot.{Snapshot}
use effexor_win_doctor.CaseStore.Types.{CommitInfo}
use effexor_win_doctor.Coordinator.{
  CommandError, invalid_argument, invalid_snapshot, missing_document, actor_not_allowed,
  acquisition_conflict, revision_conflict_error, Readings, CommitAnalysisRequest, CaseView, Store,
  view_from,
}
use effexor_win_doctor.Coordinator.Access.{load_latest_verified}
use effexor_win_doctor.Coordinator.Acquire.RequestId.{validate_acquisition_request_id}
use effexor_win_doctor.Coordinator.Merge.{findings_canonically_equal, last_by_id}
use effexor_win_doctor.Coordinator.State.{default_actor, default_reason}
use effexor_win_doctor.Coordinator.Commands.Analysis.{commit_analysis}

pub record BootAnalysisRequest : Type 0 where
  pub case_id : String
  pub expected_commit_id : String
  pub request_id : String
  pub topology_evidence_id : String
  pub actor : ActorType
  pub reason_code : String
  pub command_id : String

pub record BootAnalysisResult : Type 0 where
  pub case_view : CaseView
  pub findings : List Finding
  pub topology : WindowsBootTopology
  pub idempotent : Bool

pub is_advisor : ActorType → Bool
is_advisor llm_advisor = true
is_advisor _ = false

-- The loop of `selectTopologyEvidence`.
matching_evidence : String → List EvidenceBundle → List EvidenceBundle
matching_evidence want [] = []
matching_evidence want (e ∷ es) =
    let rest = matching_evidence want es in
    if e.facts_schema == "windows-boot-topology" && (want == "" || e.evidence_id == want)
    then e ∷ rest
    else rest

-- The last of the sorted matches: the one with the greatest id.
last_sorted : EvidenceBundle → List EvidenceBundle → EvidenceBundle
last_sorted best [] = best
last_sorted best (e ∷ es) =
    last_sorted (if is_lt (compare e.evidence_id best.evidence_id) then best else e) es

chosen_evidence : String → List EvidenceBundle → Result CommandError EvidenceBundle
unfolding last_sorted
chosen_evidence want [] = err (
    missing_document (
      if want == ""
      then "no windows-boot-topology evidence in case"
      else "topology evidence %q not found"))
chosen_evidence want (e ∷ es) = ok (last_sorted e es)

decoded_topology : Option WindowsBootTopology → Result CommandError WindowsBootTopology
decoded_topology none = err (invalid_argument "decode topology evidence: %v")
decoded_topology (some topo) = map_err invalid_snapshot (validate_topology topo) >> ok topo

unfoldable pub select_topology_evidence :
    (String → Option WindowsBootTopology)
    → Snapshot
    → String
    → Result CommandError (EvidenceBundle × WindowsBootTopology)
unfolding matching_evidence chosen_evidence decoded_topology
select_topology_evidence decode snap want =
    chosen_evidence want (matching_evidence want snap.evidence_bundles) >>= λ e.
    decoded_topology (decode e.facts) >>= λ topo. ok (e, topo)

same_as_expected : Option Finding → Finding → Bool
same_as_expected none f = false
same_as_expected (some prev) f = findings_canonically_equal prev f

unfoldable pub findings_subset_equal : List Finding → List Finding → Bool
unfolding same_as_expected
findings_subset_equal existing [] = true
findings_subset_equal existing (f ∷ expected) =
    same_as_expected (last_by_id existing f.finding_id none) f
    && findings_subset_equal existing expected

unfoldable pub is_analysis : CoordinatorEventType → Bool
is_analysis analysis_committed = true
is_analysis _ = false

-- Is there an analysis event of the request?
unfoldable pub was_committed : List CoordinatorEvent → String → Bool
unfolding is_analysis
was_committed [] request_id = false
was_committed (e ∷ es) request_id =
    (is_analysis e.event_type && e.command_id == request_id) || was_committed es request_id

-- `firstNonEmpty`
unfoldable pub first_non_empty : String → String → String
first_non_empty a b = if not (a == "") then a else b

-- What the command does after its reads: it repeats an earlier result, or commits an analysis.
pub data Decision : Type 0 where
  replay : BootAnalysisResult → Decision
  commit : CommitAnalysisRequest → WindowsBootTopology → Decision

-- What `findBootDoctorReplay` returns for an event of the request.
replayed :
    BootAnalysisRequest
    → Snapshot
    → CommitInfo
    → WindowsBootTopology
    → List Finding
    → Result CommandError Decision
replayed q snap info topo findings =
    guard (findings_subset_equal snap.findings findings)
      (acquisition_conflict snap.manifest.case_id q.request_id)
    >> ok (
        replay (record {
          case_view = view_from snap info;
          findings = findings;
          topology = topo;
          idempotent = true;
        }))

-- The request of the commit.
unfoldable pub analysis_request_of : BootAnalysisRequest → List Finding → CommitAnalysisRequest
unfolding first_non_empty
analysis_request_of q findings = record {
  case_id = q.case_id;
  expected_commit_id = q.expected_commit_id;
  findings = findings;
  actor = default_actor q.actor deterministic_analyzer;
  reason_code = default_reason q.reason_code "boot_doctor_analysis_committed";
  command_id = first_non_empty q.command_id q.request_id;
}

-- The earlier event, or the checks of the commit.
unfoldable pub decide :
    BootAnalysisRequest
    → Snapshot
    → CommitInfo
    → WindowsBootTopology
    → List Finding
    → Result CommandError Decision
unfolding replayed
decide q snap info topo findings =
    if was_committed snap.coordinator_events q.request_id
    then replayed q snap info topo findings
    else guard (not (q.expected_commit_id == ""))
        (invalid_argument "expected_commit_id is required")
      >> (guard (info.commit_id == q.expected_commit_id)
            (revision_conflict_error q.case_id q.expected_commit_id info.commit_id)
          >> ok (commit (analysis_request_of q findings) topo))

-- The input of the boot doctor.
abbrev pub input_of : BootAnalysisRequest → Snapshot → EvidenceBundle → WindowsBootTopology → Input
input_of q snap e topo = record {
  case_id = q.case_id;
  topology = topo;
  topology_evidence_id = e.evidence_id;
  targets = snap.targets;
  known_evidence_ids = map (λ (b : EvidenceBundle). b.evidence_id) snap.evidence_bundles;
  known_target_ids = map (λ (t : Target). t.target_id) snap.targets;
}

-- The analysis of the latest revision.
unfoldable pub analyzed_findings :
    (String → Option WindowsBootTopology)
    → (String → String)
    → BootAnalysisRequest
    → Snapshot
    → Result CommandError (WindowsBootTopology × List Finding)
analyzed_findings decode sha256_hex q snap =
    select_topology_evidence decode snap q.topology_evidence_id >>= λ chosen.
    map_err invalid_snapshot (analyze sha256_hex (input_of q snap chosen.0 chosen.1))
    >>= λ findings.
        guard (not (is_empty findings)) (invalid_argument "Boot Doctor produced no findings")
        >> ok (chosen.1, findings)

module _ {S : Type 0} (store : Store S) (decode : String → Option WindowsBootTopology)
    (sha256_hex : String → String) where
  unfoldable pub decided_command : S → BootAnalysisRequest → Result CommandError Decision
  unfolding is_advisor
  decided_command s q =
      guard (not (is_advisor (default_actor q.actor deterministic_analyzer))) actor_not_allowed
      >> (validate_acquisition_request_id q.request_id
          >> (load_latest_verified store s q.case_id >>= λ loaded.
              analyzed_findings decode sha256_hex q loaded.0 >>= λ found.
              decide q loaded.0 loaded.1 found.0 found.1))

  committed :
      List Finding
      → WindowsBootTopology
      → S × Result CommandError CaseView
      → S × Result CommandError BootAnalysisResult
  committed findings topo (s, err e) = (s, err e)
  committed findings topo (s, ok view) = (
    s,
    ok (record { case_view = view; findings = findings; topology = topo; idempotent = false }),
  )

  unfoldable pub carried_out :
      Readings → S → Result CommandError Decision → S × Result CommandError BootAnalysisResult
  unfolding committed
  carried_out r s (err e) = (s, err e)
  carried_out r s (ok (replay result)) = (s, ok result)
  carried_out r s (ok (commit request topo)) =
      committed request.findings topo (commit_analysis store r request s)

  unfoldable pub commit_boot_doctor_analysis :
      Readings → BootAnalysisRequest → S → S × Result CommandError BootAnalysisResult
  unfolding decided_command carried_out
  commit_boot_doctor_analysis r q s = carried_out r s (decided_command s q)
