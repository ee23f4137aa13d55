-- ===== src/CaseStore/Snapshot/Transitions/Revisions.antt =====
-- The revisions of a snapshot that passes the checks of Transitions.antt.
use effexor_win_doctor.Prelude.{
  ℕ, zero, suc, ◌+◌, ◌≤◌, ◌<◌, String, ◌≡◌, true, List, arith, eqb, is_some, length, ok, Bool-cases,
  inl, inr, subst,
}
use effexor_win_doctor.Domain.Workflow.{CaseWorkflowState, state_eq, state_eq→≡}
use effexor_win_doctor.Domain.Events.{CoordinatorEvent}
use effexor_win_doctor.CaseStore.Snapshot.Transitions.{
  by_rev, at_rev, check_contiguous, check_chain, check_revisions,
}

check_contiguous-all :
    (es : List CoordinatorEvent) (n k : ℕ)
    → check_contiguous es n ≡ ok tt
    → k < n
    → is_some (by_rev es (k + 1)) ≡ true
unfolding check_contiguous
check_contiguous-all es zero k h lt = absurd (let z : ⊥ = omega arith in z)
check_contiguous-all es (suc n) k h lt =
    let before : check_contiguous es n ≡ ok tt = ground arith in
    let here : is_some (by_rev es (suc n)) ≡ true = ground arith in
    elim (Bool-cases (eqb k n)) [
      | inl e ↦
          let q : suc n ≡ k + 1 = ground arith in subst (λ m. is_some (by_rev es m) ≡ true) q here
      | inr ne ↦ check_contiguous-all es n k before (ground arith)
    ]

check_chain-all :
    (es : List CoordinatorEvent) (n k : ℕ)
    → check_chain es n ≡ ok tt
    → k + 2 ≤ n
    → (at_rev es (k + 2)).previous_state ≡ (at_rev es (k + 1)).next_state
unfolding check_chain
check_chain-all es zero k h le = absurd (let z : ⊥ = omega arith in z)
check_chain-all es (suc zero) k h le = absurd (let z : ⊥ = omega arith in z)
check_chain-all es (suc (suc n)) k h le =
    let before : check_chain es (suc n) ≡ ok tt = ground arith in
    let here : state_eq (at_rev es (suc (suc n))).previous_state (at_rev es (suc n)).next_state
        ≡ true =
      ground arith in
    elim (Bool-cases (eqb k n)) [
      | inl e ↦
          let q1 : suc n ≡ k + 1 = ground arith in
          let q2 : suc (suc n) ≡ k + 2 = ground arith in
          let last : (at_rev es (suc (suc n))).previous_state ≡ (at_rev es (suc n)).next_state =
            state_eq→≡ _ _ here in
          subst (λ m. (at_rev es m).previous_state ≡ (at_rev es (k + 1)).next_state) q2
            (subst (λ m. (at_rev es (suc (suc n))).previous_state ≡ (at_rev es m).next_state) q1
              last)
      | inr ne ↦ check_chain-all es (suc n) k before (ground arith)
    ]

-- What the checks of the revisions establish: there are as many state-changing events as revisions,
-- each revision has its event, and each event starts from the state that the one before it led to.
pub record Continuous (w : CaseWorkflowState) (changing : List CoordinatorEvent) : Type 0 where
  pub counted : length changing ≡ w.revision
  pub present : (k : ℕ) → k < w.revision → is_some (by_rev changing (k + 1)) ≡ true
  pub connected :
      (k : ℕ)
      → k + 2 ≤ w.revision
      → (at_rev changing (k + 2)).previous_state ≡ (at_rev changing (k + 1)).next_state
  pub current : (at_rev changing w.revision).next_state ≡ w.state

pub check_revisions-Continuous :
    (w : CaseWorkflowState) (case_id : String) (events changing : List CoordinatorEvent)
    → check_revisions w case_id events changing ≡ ok tt
    → Continuous w changing
unfolding check_revisions
check_revisions-Continuous w case_id events changing h =
    let contiguous : check_contiguous changing w.revision ≡ ok tt = ground arith in
    let chained : check_chain changing w.revision ≡ ok tt = ground arith in
    let final : state_eq (at_rev changing w.revision).next_state w.state ≡ true = ground arith in
    record {
      counted = ground arith;
      present = λ k lt. check_contiguous-all changing w.revision k contiguous lt;
      connected = λ k le. check_chain-all changing w.revision k chained le;
      current = state_eq→≡ _ w.state final;
    }
