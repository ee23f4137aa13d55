-- ===== src/Coordinator/Commands/Consultation/Repeated.antt =====
-- A consultation that is committed twice, internal/recovery/coordinator/consultation.go on the case
-- store of internal/recovery/casestore.
use effexor_win_doctor.Prelude.{String, ◌≡◌, true, ok}
use effexor_win_doctor.CaseStore.Snapshot.{Snapshot}
use effexor_win_doctor.CaseStore.Types.{CommitInfo}
use effexor_win_doctor.CaseStore.Chain.{Hashes}
use effexor_win_doctor.Coordinator.{current_state}
use effexor_win_doctor.Coordinator.Access.{load_latest_verified}
use effexor_win_doctor.Coordinator.ChainStore.{Chains, chain_store}
use effexor_win_doctor.Coordinator.Commands.Consultation.{
  ConsultationRequest, ConsultationResult, is_analyzed, no_twin, with_consultation,
  check_consultation_request, consultation_of,
}

-- What the first request leaves: a read returns the revision with the consultation at its end.
record LeftBehind (h : Hashes) (sha : String → String) (at id : String) (m m' : Chains)
    (q : ConsultationRequest) (res : ConsultationResult) : Type 0 where
  pub snapshot : Snapshot
  pub info : CommitInfo
  pub now : CommitInfo
  pub checked : check_consultation_request q ≡ ok tt
  pub is_analysed : is_analyzed (current_state snapshot) ≡ true
  pub own : snapshot.manifest.case_id ≡ q.case_id
  pub no_other : no_twin snapshot.agent_consultations (consultation_of sha q info) ≡ ok tt
  pub is_cons : res.consultation ≡ consultation_of sha q info
  pub named : now.commit_id ≡ res.case_view.commit_info.commit_id
  pub loaded :
      load_latest_verified (chain_store h at) m' id
      ≡ ok (with_consultation snapshot (consultation_of sha q info), now)
