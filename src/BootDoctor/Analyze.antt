-- ===== src/BootDoctor/Analyze.antt =====
-- `Analyze` of internal/recovery/bootdoctor/analyze.go. Go walks the map of drafts in any order; the
-- findings are sorted at the end, and here the walk is in the order of the entries.
pub mod Verdicts
pub mod Grounded
use Prim.Native.String.{compare}
use text.Mathlib.Text.{is_lt}
use effexor_win_doctor.Prelude.{
  String, str_append, Bool, true, false, Option, none, some, List, [], ◌∷◌, ◌++◌, ◌&&◌, ◌||◌, not,
  ◌==◌, is_empty, if◌then◌else◌, contains_string, trim_space, Result, ok, err, guard, map_err,
  ◌>>=◌, ◌>>◌,
}
use effexor_win_doctor.Domain.Errors.{Error, errorf, wrap, Check}
use effexor_win_doctor.Domain.Checks.{schema_version}
use effexor_win_doctor.Domain.Documents.{Target}
use effexor_win_doctor.Domain.Evidence.{Finding, validate_finding}
use effexor_win_doctor.Domain.Topology.{WindowsBootTopology}
use effexor_win_doctor.Domain.Topology.Validation.{validate_topology}
use effexor_win_doctor.BootDoctor.Catalog.{CodeSpec, catalog, spec_of}
use effexor_win_doctor.BootDoctor.Identity.{
  analyzer_id, analyzer_version, code_limit_prefix, unique_sorted, finding_id_for, finding_code_of,
}
use effexor_win_doctor.BootDoctor.Suppress.{Draft, Drafts, apply_suppression}
use effexor_win_doctor.BootDoctor.Queries.{to_set}
use effexor_win_doctor.BootDoctor.Drafts.{collect_drafts}

pub record Input : Type 0 where
  pub case_id : String
  pub topology : WindowsBootTopology
  pub topology_evidence_id : String
  pub targets : List Target
  pub known_evidence_ids : List String
  pub known_target_ids : List String

-- The loop of `refsExist` over a set that is not empty.
all_known : String → List String → List String → Check
all_known kind [] known = ok tt
all_known kind (id ∷ ids) known =
    guard (contains_string known id)
      (errorf "bootdoctor: finding references unknown %s %q" (kind ∷ id ∷ []))
    >> all_known kind ids known

unfoldable pub refs_exist : String → List String → List String → Check
unfolding all_known
refs_exist kind ids known = if is_empty known then ok tt else all_known kind ids known

-- The limitations of a finding, before they are sorted.
abbrev limitations_of : Input → String → Draft → List String
limitations_of i code d =
    str_append code_limit_prefix code
    ∷ (d.extra_lim
        ++ (str_append "analyzer=" analyzer_id
            ∷ str_append "analyzer_version=" analyzer_version
            ∷ str_append "topology_id=" i.topology.topology_id
            ∷ (if i.topology_evidence_id == ""
                then []
                else str_append "topology_evidence_id=" i.topology_evidence_id ∷ [])))

-- The finding of a draft.
unfoldable pub finding_of : (String → String) → Input → String → Draft → CodeSpec → Finding
finding_of sha256_hex i code d spec =
    let targets = unique_sorted d.targets in
    let evidence = unique_sorted d.evidence in
    record {
      schema_name = "finding";
      schema_version = schema_version;
      finding_id = finding_id_for sha256_hex i.case_id code targets evidence;
      case_id = i.case_id;
      severity = spec.severity;
      confidence = spec.confidence;
      title = spec.title;
      rationale = spec.rationale;
      evidence_refs = some evidence;
      affected_target_ids = some targets;
      recommended_workflows = some spec.workflows;
      limitations = some (unique_sorted (limitations_of i code d));
      insufficient_evidence = d.insuff || is_empty evidence;
    }

-- The body of the loop over the drafts, with the entry of the catalogue.
unfoldable pub checked_finding :
    (String → String) → Input → String → Draft → Option CodeSpec → Result Error Finding
unfolding refs_exist finding_of
checked_finding sha256_hex i code d none =
    err (errorf "bootdoctor: unknown finding code %q" (code ∷ []))
checked_finding sha256_hex i code d (some spec) = do
  refs_exist "target" (unique_sorted d.targets) (to_set i.known_target_ids)
  refs_exist "evidence" (unique_sorted d.evidence) (to_set i.known_evidence_ids)
  map_err (wrap "bootdoctor: finding %s: %w" (code ∷ []))
      (validate_finding (finding_of sha256_hex i code d spec))
  ok (finding_of sha256_hex i code d spec)

unfoldable pub make_findings : (String → String) → Input → Drafts → Result Error (List Finding)
unfolding checked_finding
make_findings sha256_hex i [] = ok []
make_findings sha256_hex i ((code, d) ∷ drafts) =
    checked_finding sha256_hex i code d (spec_of catalog code) >>= λ f.
    make_findings sha256_hex i drafts >>= λ fs. ok (f ∷ fs)

-- The order of the sort: by code, then by id.
unfoldable pub finding_before : Finding → Finding → Bool
finding_before a b =
    if finding_code_of a == finding_code_of b
    then is_lt (compare a.finding_id b.finding_id)
    else is_lt (compare (finding_code_of a) (finding_code_of b))

insert_finding : Finding → List Finding → List Finding
unfolding finding_before
insert_finding f [] = f ∷ []
insert_finding f (g ∷ gs) =
    let rest = insert_finding f gs in if finding_before g f then g ∷ rest else f ∷ g ∷ gs

-- `sort.Slice`
unfoldable pub sort_findings : List Finding → List Finding
unfolding insert_finding
sort_findings [] = []
sort_findings (f ∷ fs) = insert_finding f (sort_findings fs)

check_input : Input → Check
check_input i = do
  guard (not (trim_space i.case_id == "")) (errorf "bootdoctor: case_id is required" [])
  guard (i.topology.case_id == "" || i.topology.case_id == i.case_id)
      (errorf "bootdoctor: topology.case_id mismatch" [])
  map_err (wrap "bootdoctor: topology: %w" []) (validate_topology i.topology)
  guard
      (i.topology_evidence_id == ""
        || is_empty (to_set i.known_evidence_ids)
        || contains_string (to_set i.known_evidence_ids) i.topology_evidence_id)
      (errorf "bootdoctor: topology evidence %q is not in known evidence set"
        (i.topology_evidence_id ∷ []))

-- The drafts that `Analyze` makes findings of.
abbrev pub kept_drafts : Input → Drafts
kept_drafts i = apply_suppression (collect_drafts i.topology i.targets i.topology_evidence_id)

unfoldable pub analyze : (String → String) → Input → Result Error (List Finding)
unfolding check_input
analyze sha256_hex i =
    check_input i
    >> (make_findings sha256_hex i (kept_drafts i) >>= λ findings. ok (sort_findings findings))
