-- ===== src/Coordinator/ChainStore/Reads.antt =====
-- What a read of the case store finds after a commit, internal/recovery/casestore behind the
-- coordinator's interface.
use effexor_win_doctor.Prelude.{
  some-injective, arith, ==_refl, >>-eq-ok, >>=-eq-ok, guard-eq-ok, String, ◌≡◌, ap, sym, subst,
  ◌∙◌, true, false, not, ◌==◌, if◌then◌else◌, List, some, Result, ok,
}
use effexor_win_doctor.Domain.Patterns.{re_case_id}
use effexor_win_doctor.CaseStore.Snapshot.{Snapshot}
use effexor_win_doctor.CaseStore.Types.{StoreError, CommitInfo, CommitRequest, IntegrityStatus}
use effexor_win_doctor.CaseStore.Chain.{
  CommitRecord, Hashes, commit_locked, verify_committed_history, head_of, info_of, record_after,
}
use effexor_win_doctor.CaseStore.Chain.Latest.{
  commit_locked-Named, commit_locked-Written, history-commit_locked, is_empty-head_of,
  load_latest-head,
}
use effexor_win_doctor.Coordinator.Access.{load_latest_verified, read, is_sound}
use effexor_win_doctor.Coordinator.ChainStore.{
  Chains, update, stored_in, status, verify, chain_store,
}

stored_in-ok :
    (m m' : Chains) (id : String) (r : List CommitRecord × Result StoreError CommitInfo)
    (info : CommitInfo)
    → stored_in m id r ≡ (m', ok info)
    → (chain : List CommitRecord) × (r ≡ (chain, ok info)) × (m' ≡ update m id chain)
unfolding stored_in
stored_in-ok m m' id (chain, r) info h = (chain, ap (λ p. (chain, p.1)) h, sym (ap (λ p. p.0) h))

-- A chain that a read can return, and the commit that the read shows.
pub record Readable (chain : List CommitRecord) (commit_id : String) : Type 0 where
  pub history : verify_committed_history chain ≡ ok tt
  pub head : CommitRecord
  pub is_head : head_of chain ≡ some head
  pub named : head.commit_id ≡ commit_id

pub commit-Readable :
    (h : Hashes) (at id : String) (m m' : Chains) (q : CommitRequest) (info : CommitInfo)
    → (chain_store h at).commit m q ≡ (m', ok info)
    → q.snapshot.manifest.case_id ≡ id
    → Readable (m' id) info.commit_id
unfolding chain_store update
commit-Readable h at id m m' q info hc same =
    let own = q.snapshot.manifest.case_id in
    let (chain, hr, hm) = stored_in-ok m m' own (commit_locked h at (m own) q) info hc in
    let n = commit_locked-Named h at (m own) chain q info hr in
    let here : m' id ≡ chain =
      ap (λ (f : Chains). f id) hm
      ∙ ap (λ b. if b then chain else m id) (subst (λ x. id == x ≡ true) (sym same) (==_refl id)) in
    subst (λ c. Readable c info.commit_id) (sym here)
      (record {
        history = history-commit_locked h at (m own) chain q info hr;
        head = n.head;
        is_head = n.is_head;
        named = n.named;
      })

-- After a commit that is not a repetition the head's snapshot is the one that was written.
pub commit-written :
    (h : Hashes) (at id : String) (m m' : Chains) (q : CommitRequest) (info : CommitInfo)
    → (chain_store h at).commit m q ≡ (m', ok info)
    → q.snapshot.manifest.case_id ≡ id
    → info.idempotent ≡ false
    → (r : Readable (m' id) info.commit_id) → r.head.snapshot ≡ q.snapshot
unfolding chain_store update record_after
commit-written h at id m m' q info hc same hi r =
    let own = q.snapshot.manifest.case_id in
    let (chain, hr, hm) = stored_in-ok m m' own (commit_locked h at (m own) q) info hc in
    let here : m' id ≡ chain =
      ap (λ (f : Chains). f id) hm
      ∙ ap (λ b. if b then chain else m id) (subst (λ x. id == x ≡ true) (sym same) (==_refl id)) in
    let w = commit_locked-Written h at (m own) chain q info hr hi in
    let heads : some r.head ≡ some (record_after h at (head_of (m own)) q) =
      sym r.is_head ∙ (ap head_of here ∙ w) in
    ap (λ (c : CommitRecord). c.snapshot) (some-injective _ _ heads)

-- A read of a chain that verifies returns its head.
pub load_latest_verified-Readable :
    (h : Hashes) (at id commit_id : String) (m : Chains)
    → re_case_id id ≡ true
    → not (id == "") ≡ true
    → (r : Readable (m id) commit_id)
    → load_latest_verified (chain_store h at) m id ≡ ok (r.head.snapshot, info_of false r.head)
unfolding load_latest_verified chain_store verify status read is_sound
load_latest_verified-Readable h at id commit_id m hid hne r =
    let full = is_empty-head_of (m id) r.head r.is_head in
    let hh = r.history in
    let hl = load_latest-head (m id) id r.head hid r.history r.is_head in ground arith

read-case_id :
    (m : Chains) (id : String) (status : IntegrityStatus)
    → read (verify m id) ≡ ok status
    → re_case_id id ≡ true
unfolding verify read
read-case_id m id status h = ground arith

-- A case that is read has an id of the right form.
pub load_latest_verified-case_id :
    (h : Hashes) (at id : String) (m : Chains) (r : Snapshot × CommitInfo)
    → load_latest_verified (chain_store h at) m id ≡ ok r
    → (re_case_id id ≡ true) × (not (id == "") ≡ true)
unfolding load_latest_verified chain_store
load_latest_verified-case_id h at id m r hl =
    let (h1, h2) = >>-eq-ok _ _ hl in
    let (status, h3, h4) = >>=-eq-ok (read (verify m id)) _ h2 in
    (read-case_id m id status h3, guard-eq-ok _ _ h1)
