-- ===== src/CaseStore/Snapshot/Origin.antt =====
-- `validateEvidenceAcquisitionOrigin` of internal/recovery/casestore/snapshot.go: every target and
-- every evidence bundle was there from the start or came with one acquisition, never both.
use effexor_win_doctor.Prelude.{
  String, Bool, true, false, List, [], ◌∷◌, not, is_some, elems, contains_string, Result, ok, guard,
  ◌>>=◌, ◌>>◌,
}
use effexor_win_doctor.Domain.Errors.{Error, errorf, Check}
use effexor_win_doctor.Domain.Documents.{Target}
use effexor_win_doctor.Domain.Evidence.{EvidenceBundle}
use effexor_win_doctor.Domain.Records.{EvidenceAcquisitionRecord}
use effexor_win_doctor.CaseStore.Snapshot.{Snapshot, find_target_by_id, find_evidence_by_id}
use effexor_win_doctor.CaseStore.Snapshot.References.{initial_target_and_evidence_ids}

-- The keys of a set of claimed ids, the latest first.
unfoldable pub claim :
    (String → Bool) → Error → List String → List String → Result Error (List String)
claim known missing claimed [] = ok claimed
claim known missing claimed (id ∷ ids) =
    guard (known id) missing
    >> (guard (not (contains_string claimed id))
          (errorf "%q claimed by acquisitions %q and %q" (id ∷ []))
        >> claim known missing (id ∷ claimed) ids)

all_exist : (String → Bool) → Error → List String → Check
all_exist known missing [] = ok tt
all_exist known missing (id ∷ ids) = guard (known id) missing >> all_exist known missing ids

unfoldable pub has_target : Snapshot → String → Bool
has_target s id = is_some (find_target_by_id s.targets id)

unfoldable pub has_evidence : Snapshot → String → Bool
has_evidence s id = is_some (find_evidence_by_id s.evidence_bundles id)

-- The loop over the acquisitions: the targets and the evidence that they added.
unfoldable pub claims :
    Snapshot
    → List String
    → List String
    → List EvidenceAcquisitionRecord
    → Result Error (List String × List String)
unfolding all_exist
claims s targets evidence [] = ok (targets, evidence)
claims s targets evidence (a ∷ acqs) =
    all_exist (has_target s)
      (errorf "acquisition %q target_ids contains unknown %q" (a.acquisition_id ∷ []))
      (elems a.target_ids)
    >> (all_exist (has_evidence s)
          (errorf "acquisition %q input_evidence_ids contains unknown %q" (a.acquisition_id ∷ []))
          (elems a.input_evidence_ids)
        >> (claim (has_target s)
              (errorf "acquisition %q added_target_ids contains missing %q" (a.acquisition_id ∷ []))
              targets (elems a.added_target_ids)
            >>= λ targets'.
                claim (has_evidence s)
                  (errorf "acquisition %q added_evidence_ids contains missing %q"
                    (a.acquisition_id ∷ []))
                  evidence (elems a.added_evidence_ids)
                >>= λ evidence'. claims s targets' evidence' acqs))

none_initial : String → List String → List String → Check
none_initial message initial [] = ok tt
none_initial message initial (id ∷ ids) =
    guard (not (contains_string initial id)) (errorf message (id ∷ []))
    >> none_initial message initial ids

-- `initial == added`
same : Bool → Bool → Bool
same true b = b
same false b = not b

unfoldable pub one_origin : String → List String → List String → List String → Check
unfolding same
one_origin message initial added [] = ok tt
one_origin message initial added (id ∷ ids) =
    guard (not (same (contains_string initial id) (contains_string added id)))
      (errorf message (id ∷ []))
    >> one_origin message initial added ids

abbrev pub target_ids_of : List Target → List String
target_ids_of [] = []
target_ids_of (t ∷ ts) = t.target_id ∷ target_ids_of ts

abbrev pub evidence_ids_of : List EvidenceBundle → List String
evidence_ids_of [] = []
evidence_ids_of (e ∷ es) = e.evidence_id ∷ evidence_ids_of es

-- The checks after that loop.
origins : Snapshot → List String → List String → Check
unfolding none_initial
origins s targets evidence =
    let (initial_targets, initial_evidence) = initial_target_and_evidence_ids s in
    none_initial "target %q cannot be both initial and acquired" initial_targets targets
    >> (none_initial "evidence %q cannot be both initial and acquired" initial_evidence evidence
        >> (one_origin "target %q lacks exactly one origin" initial_targets targets
              (target_ids_of s.targets)
            >> one_origin "evidence %q lacks exactly one origin" initial_evidence evidence
                (evidence_ids_of s.evidence_bundles)))

unfoldable pub validate_evidence_acquisition_origin : Snapshot → Check
unfolding origins
validate_evidence_acquisition_origin s =
    claims s [] [] s.evidence_acquisitions >>= λ added. origins s (added.0) (added.1)
