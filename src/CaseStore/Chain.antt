-- ===== src/CaseStore/Chain.antt =====
-- A case's commit chain, internal/recovery/casestore: parent_expectation.go, the decisions of
-- commit.go and load.go, and acquisition_provenance.go. A chain is the list of its commit records,
-- the oldest first, each with the snapshot that its directory holds; files that are there are
-- intact, so what a commit writes is what a load reads.
pub mod Linked
pub mod Runs
pub mod Latest
use effexor_win_doctor.Prelude.{
  ℕ, String, ◌+◌, ◌%◌, Bool, true, false, Option, none, some, List, [], ◌∷◌, ◌++◌, ◌&&◌, not, ltb,
  ◌==◌, if◌then◌else◌, is_some, is_empty, length, elems, Result, ok, err, guard, map_err, ◌>>◌,
}
use effexor_win_doctor.Domain.Patterns.{re_commit_id, re_case_id}
use effexor_win_doctor.Domain.Records.{EvidenceAcquisitionRecord}
use effexor_win_doctor.CaseStore.Snapshot.{Snapshot, find_target_by_id, find_evidence_by_id}
use effexor_win_doctor.CaseStore.Snapshot.Validation.{validate}
use effexor_win_doctor.CaseStore.Types.{
  StoreError, case_exists, revision_conflict, integrity, not_found, rejected, other,
  ParentExpectation, CommitReason, CommitInfo, CommitRequest,
}

pub record CommitRecord : Type 0 where
  pub case_id : String
  pub sequence : ℕ  -- uint64
  pub commit_id : String
  pub parent_commit_id : Option String
  pub snapshot_id : String
  pub committed_at : String
  pub reason : CommitReason
  pub snapshot : Snapshot

pub head_of : List CommitRecord → Option CommitRecord
head_of [] = none
head_of (c ∷ []) = some c
head_of (c ∷ d ∷ chain) = head_of (d ∷ chain)

unfoldable pub actual : Option CommitRecord → String
actual none = ""
actual (some head) = head.commit_id

abbrev pub Stored : Type 0
Stored = Result StoreError (Unit {0})

-- `ParentExpectation.validate`
unfoldable pub validate_expectation : ParentExpectation → Stored
validate_expectation ParentExpectation.unspecified = ok tt
validate_expectation ParentExpectation.absent = ok tt
validate_expectation (ParentExpectation.commit id) =
    guard (re_commit_id id) (other "parent expectation commit id")

met : ParentExpectation → List CommitRecord → Stored
unfolding head_of actual
met ParentExpectation.unspecified chain = ok tt
met ParentExpectation.absent chain = guard (is_empty chain) case_exists
met (ParentExpectation.commit id) chain = guard (actual (head_of chain) == id) revision_conflict

-- `ParentExpectation.check`
unfoldable pub check_expectation : ParentExpectation → List CommitRecord → Stored
unfolding validate_expectation met
check_expectation p chain = validate_expectation p >> met p chain

-- `verifyCommittedHistory`, and the loads of `LoadLatest`.
unfoldable pub verify_committed_history : List CommitRecord → Stored
verify_committed_history [] = ok tt
verify_committed_history (c ∷ chain) =
    map_err (λ e. integrity) (validate c.snapshot) >> verify_committed_history chain

-- `byID` and `indexOf`: the last record with the id, and its position.
position : List CommitRecord → ℕ → String → Option (ℕ × CommitRecord) → Option (ℕ × CommitRecord)
position [] i id found = found
position (c ∷ chain) i id found =
    position chain (i + 1) id (if c.commit_id == id then some (i, c) else found)

all_ids : (String → Bool) → List String → Stored
all_ids p [] = ok tt
all_ids p (id ∷ ids) = guard (p id) integrity >> all_ids p ids

from_source : Snapshot → EvidenceAcquisitionRecord → ℕ → Option (ℕ × CommitRecord) → Stored
unfolding all_ids
from_source snap a current none = err integrity
from_source snap a current (some (i, c)) = do
  guard (ltb i current) integrity
  map_err (λ e. integrity) (validate c.snapshot)
  all_ids (λ id. is_some (find_evidence_by_id c.snapshot.evidence_bundles id))
      (elems a.input_evidence_ids)
  all_ids
      (λ id.
        not (is_some (find_evidence_by_id c.snapshot.evidence_bundles id))
        && is_some (find_evidence_by_id snap.evidence_bundles id))
      (elems a.added_evidence_ids)
  all_ids
      (λ id.
        not (is_some (find_target_by_id c.snapshot.targets id))
        && is_some (find_target_by_id snap.targets id))
      (elems a.added_target_ids)

acquisitions_from : List CommitRecord → ℕ → Snapshot → List EvidenceAcquisitionRecord → Stored
unfolding position from_source
acquisitions_from chain current snap [] = ok tt
acquisitions_from chain current snap (a ∷ acqs) =
    from_source snap a current (position chain 0 a.source_commit_id none)
    >> acquisitions_from chain current snap acqs

unfoldable pub validate_acquisition_commit_provenance : List CommitRecord → ℕ → Snapshot → Stored
unfolding acquisitions_from
validate_acquisition_commit_provenance chain current snap =
    acquisitions_from chain current snap snap.evidence_acquisitions

-- `parentString`
parent_string : Option String → String
parent_string none = ""
parent_string (some id) = id

unfoldable pub info_of : Bool → CommitRecord → CommitInfo
unfolding parent_string
info_of idempotent c = record {
  case_id = c.case_id;
  snapshot_id = c.snapshot_id;
  commit_id = c.commit_id;
  sequence = c.sequence;
  parent_commit_id = parent_string c.parent_commit_id;
  committed_at = c.committed_at;
  idempotent = idempotent;
  durability_warnings = [];
}

pub is_absent : ParentExpectation → Bool
is_absent ParentExpectation.absent = true
is_absent _ = false

next_sequence : Option CommitRecord → ℕ
next_sequence none = 1
next_sequence (some head) = (head.sequence + 1) % 18446744073709551616

parent_of : Option CommitRecord → Option String
parent_of none = none
parent_of (some head) = some head.commit_id

-- The ids are hashes of what they name: of a snapshot's documents, and of a record without its id.
pub record Hashes : Type 0 where
  pub snapshot_id_of : Snapshot → String
  pub commit_id_of : String → ℕ → Option String → String → String → CommitReason → String

-- Does a commit only repeat the head?
unfoldable pub repeats : Hashes → Option CommitRecord → CommitRequest → Bool
unfolding is_absent
repeats h none q = false
repeats h (some head) q =
    not (is_absent q.parent_expectation) && head.snapshot_id == h.snapshot_id_of q.snapshot

-- `buildCommitRecord` on the head.
unfoldable pub record_after : Hashes → String → Option CommitRecord → CommitRequest → CommitRecord
unfolding next_sequence parent_of
record_after h committed_at head q =
    let case_id = q.snapshot.manifest.case_id in
    let snapshot_id = h.snapshot_id_of q.snapshot in
    record {
      case_id = case_id;
      sequence = next_sequence head;
      commit_id =
          h.commit_id_of case_id (next_sequence head) (parent_of head) snapshot_id committed_at
            q.reason;
      parent_commit_id = parent_of head;
      snapshot_id = snapshot_id;
      committed_at = committed_at;
      reason = q.reason;
      snapshot = q.snapshot;
    }

pub appended :
    List CommitRecord → CommitRecord → Stored → List CommitRecord × Result StoreError CommitInfo
unfolding info_of
appended chain c (err e) = (chain, err e)
appended chain c (ok u) = (chain ++ c ∷ [], ok (info_of false c))

repeated :
    List CommitRecord → Option CommitRecord → List CommitRecord × Result StoreError CommitInfo
unfolding info_of
repeated chain none = (chain, err integrity)
repeated chain (some head) = (chain, ok (info_of true head))

-- The checks before a commit looks at its parent.
before_parent : List CommitRecord → CommitRequest → Stored
before_parent chain q = do
  map_err rejected (validate q.snapshot)
  verify_committed_history chain
  validate_acquisition_commit_provenance chain (length chain) q.snapshot

unfoldable pub decided :
    Hashes
    → String
    → List CommitRecord
    → CommitRequest
    → Stored
    → List CommitRecord × Result StoreError CommitInfo
unfolding repeats record_after appended repeated
decided h at chain q (err e) = (chain, err e)
decided h at chain q (ok u) =
    if repeats h (head_of chain) q
    then repeated chain (head_of chain)
    else appended chain (record_after h at (head_of chain) q)
        (check_expectation q.parent_expectation chain)

-- `Commit` on the case's chain, under the case's lock, at the time `at`.
unfoldable pub commit_locked :
    Hashes
    → String
    → List CommitRecord
    → CommitRequest
    → List CommitRecord × Result StoreError CommitInfo
unfolding before_parent decided
commit_locked h at chain q = decided h at chain q (before_parent chain q)

latest : Option CommitRecord → Result StoreError (Snapshot × CommitInfo)
unfolding info_of
latest none = err not_found
latest (some c) = ok (c.snapshot, info_of false c)

-- `LoadLatest`
unfoldable pub load_latest : List CommitRecord → String → Result StoreError (Snapshot × CommitInfo)
unfolding latest
load_latest chain case_id = do
  guard (re_case_id case_id) (other "invalid case_id")
  verify_committed_history chain
  latest (head_of chain)
