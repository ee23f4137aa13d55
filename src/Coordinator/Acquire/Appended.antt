-- ===== src/Coordinator/Acquire/Appended.antt =====
-- What `appendAcquisition` of internal/recovery/coordinator/acquire.go does to a snapshot.
use effexor_win_doctor.Prelude.{◌≡◌, none, some, List, [], ◌∷◌, ◌++◌, ok}
use effexor_win_doctor.Domain.Records.{EvidenceAcquisitionRecord}
use effexor_win_doctor.CaseStore.Snapshot.{Snapshot}
use effexor_win_doctor.CaseStore.Snapshot.Validation.{validate}
use effexor_win_doctor.Coordinator.Acquire.{find_acquisition}

-- The list is the old one, in place, with what was added after it.
unfoldable pub Extended : {A : Type 0} → List A → List A → Type 0
Extended {A} old all = (added : List A) × (all ≡ old ++ added)

-- What an acquisition leaves.
pub record Acquired (snap : Snapshot) (acq : EvidenceAcquisitionRecord) (next : Snapshot)
    : Type 0 where
  pub targets : Extended snap.targets next.targets
  pub evidence : Extended snap.evidence_bundles next.evidence_bundles
  pub acquisitions : next.evidence_acquisitions ≡ snap.evidence_acquisitions ++ acq ∷ []
  pub workflow : next.workflow_state ≡ snap.workflow_state
  pub events : next.coordinator_events ≡ snap.coordinator_events
  pub was_new : find_acquisition snap.evidence_acquisitions acq.request_id ≡ none
  pub found : find_acquisition next.evidence_acquisitions acq.request_id ≡ some acq
  pub valid : validate next ≡ ok tt
