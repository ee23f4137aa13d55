-- ===== src/Coordinator/ChainStore.antt =====
-- The case store of internal/recovery/casestore behind the coordinator's interface `Store`: a chain
-- per case. `verify` and `load_latest` read a chain; files that are there are intact.
pub mod Reads
use effexor_win_doctor.Prelude.{
  String, ◌==◌, if◌then◌else◌, List, is_empty, Result, ok, err, guard, ◌>>◌,
}
use effexor_win_doctor.Domain.Patterns.{re_case_id}
use effexor_win_doctor.CaseStore.Types.{
  StoreError, CommitInfo, IntegrityStatus, intact, corrupt, other,
}
use effexor_win_doctor.CaseStore.Chain
use effexor_win_doctor.CaseStore.Chain.{
  CommitRecord, Hashes, commit_locked, verify_committed_history,
}
use effexor_win_doctor.Coordinator.{Store}

abbrev pub Chains : Type 0
Chains = String → List CommitRecord

unfoldable pub update : Chains → String → List CommitRecord → Chains
update m id chain k = if k == id then chain else m k

pub stored_in :
    Chains
    → String
    → List CommitRecord × Result StoreError CommitInfo
    → Chains × Result StoreError CommitInfo
stored_in m id (chain, r) = (update m id chain, r)

status : Result StoreError (Unit {0}) → IntegrityStatus
status (ok u) = intact
status (err e) = corrupt

-- `Verify` of a case whose directory holds its commits and nothing else.
unfoldable pub verify : Chains → String → Result StoreError IntegrityStatus
unfolding status
verify m case_id =
    guard (re_case_id case_id) (other "invalid case_id")
    >> (if is_empty (m case_id)
        then ok corrupt
        else ok (status (verify_committed_history (m case_id))))

unfoldable pub chain_store : Hashes → String → Store Chains
unfolding stored_in verify
chain_store h at = record {
  commit =
      λ m q. let id = q.snapshot.manifest.case_id in stored_in m id (commit_locked h at (m id) q);
  load_latest = λ m id. Chain.load_latest (m id) id;
  verify = verify;
}
