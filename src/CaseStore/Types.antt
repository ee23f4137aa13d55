-- ===== src/CaseStore/Types.antt =====
-- What the case store promises its callers, internal/recovery/casestore: types.go, errors.go and
-- parent_expectation.go. The artifact provider only feeds the blobs that a commit stores.
use effexor_win_doctor.Prelude.{ℕ, String, Bool, List}
use effexor_win_doctor.Domain.Errors.{Error}
use effexor_win_doctor.CaseStore.Snapshot.{Snapshot}

-- The errors of the case store that its callers tell apart, and the others.
pub data StoreError : Type 0 where
  case_exists revision_conflict case_locked integrity not_found : StoreError
  rejected : Error → StoreError
  other : String → StoreError

pub data ParentExpectation : Type 0 where
  unspecified : ParentExpectation
  absent : ParentExpectation
  commit : String → ParentExpectation

pub data CommitReason : Type 0 where
  legacy_import case_snapshot : CommitReason

pub record CommitInfo : Type 0 where
  pub case_id : String
  pub snapshot_id : String
  pub commit_id : String
  pub sequence : ℕ
  pub parent_commit_id : String
  pub committed_at : String
  pub idempotent : Bool
  pub durability_warnings : List String

pub record CommitRequest : Type 0 where
  pub snapshot : Snapshot
  pub reason : CommitReason
  pub parent_expectation : ParentExpectation

pub data IntegrityStatus : Type 0 where
  intact degraded corrupt : IntegrityStatus
