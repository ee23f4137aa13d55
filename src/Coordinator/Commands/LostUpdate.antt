-- ===== src/Coordinator/Commands/LostUpdate.antt =====
-- Commands of internal/recovery/coordinator on the case store of internal/recovery/casestore: what
-- the next command sees.
use effexor_win_doctor.Prelude.{String, ◌≡◌, ok}
use effexor_win_doctor.CaseStore.Snapshot.{Snapshot}
use effexor_win_doctor.CaseStore.Types.{CommitInfo}
use effexor_win_doctor.CaseStore.Chain.{Hashes}
use effexor_win_doctor.Coordinator.Access.{load_latest_verified}
use effexor_win_doctor.Coordinator.ChainStore.{Chains, chain_store}

-- A read that returns a given commit.
pub record Reads (h : Hashes) (at id : String) (m : Chains) (commit_id : String) : Type 0 where
  pub snapshot : Snapshot
  pub info : CommitInfo
  pub found : load_latest_verified (chain_store h at) m id ≡ ok (snapshot, info)
  pub named : info.commit_id ≡ commit_id
