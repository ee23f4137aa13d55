-- ===== src/CaseStore/Snapshot/Validation/Parts.antt =====
-- What a snapshot that passes `Snapshot.Validate` has.
use effexor_win_doctor.Prelude.{
  ℕ, ◌+◌, ◌≡◌, ap, sym, ◌∙◌, ◌∷◌, ◌++◌, eq_iff, ◌==◌, true, some, List, [], arith, ok, >>=-eq-ok,
  >>-eq-ok,
}
use effexor_win_doctor.Domain.Workflow.{CaseWorkflowState, compatible_workflow_and_case_state}
use effexor_win_doctor.Domain.CrossRefs.{CrossRefs}
use effexor_win_doctor.Domain.Errors.{Check}
use effexor_win_doctor.Domain.Evidence.{ArtifactRef}
use effexor_win_doctor.CaseStore.Snapshot.{Snapshot}
use effexor_win_doctor.CaseStore.Snapshot.Sets.{unique_ids, for_each}
use effexor_win_doctor.Domain.Events.{CoordinatorEvent}
use effexor_win_doctor.CaseStore.Snapshot.Transitions.{collect_changing}
use effexor_win_doctor.CaseStore.Snapshot.Transitions.Revisions.{
  Continuous, check_revisions-Continuous,
}
use effexor_win_doctor.CaseStore.Snapshot.Validation.{
  cross_refs, checked_event, documents, validate, check_ids, validate_workflow_transition_integrity,
}

pub check_ids-unique_events :
    (s : Snapshot) {a : List ArtifactRef}
    → check_ids s ≡ ok a
    → unique_ids "duplicate coordinator event_id %q" (λ e. e.event_id) [] s.coordinator_events
      ≡ ok tt
unfolding check_ids
check_ids-unique_events s h = ground arith

pub validate-unique_events :
    (s : Snapshot)
    → validate s ≡ ok tt
    → unique_ids "duplicate coordinator event_id %q" (λ e. e.event_id) [] s.coordinator_events
      ≡ ok tt
unfolding validate
validate-unique_events s h =
    let (a, ha, hb) = >>=-eq-ok (check_ids s) _ h in check_ids-unique_events s ha

pub validate-workflow :
    (s : Snapshot) (w : CaseWorkflowState)
    → s.workflow_state ≡ some w
    → validate s ≡ ok tt
    → (compatible_workflow_and_case_state w.state s.manifest.current_state ≡ true)
      × (validate_workflow_transition_integrity w s ≡ ok tt)
unfolding validate
validate-workflow s w hw h = (ground arith, ground arith)

-- The check of the last of a list.
for_each-snoc {ℓ} :
    {A : Type ℓ} (check : ℕ → A → Check) (i : ℕ) (xs : List A) (x : A)
    → for_each check i (xs ++ x ∷ []) ≡ ok tt
    → (n : ℕ) × (check n x ≡ ok tt)
unfolding for_each
for_each-snoc check i [] x h = let (h1, _) = >>-eq-ok _ _ h in (i, h1)
for_each-snoc check i (y ∷ xs) x h =
    let (_, h2) = >>-eq-ok _ _ h in for_each-snoc check (i + 1) xs x h2

for_each-last {ℓ} :
    {A : Type ℓ} (check : ℕ → A → Check) {l : List A} (xs : List A) (x : A)
    → l ≡ xs ++ x ∷ []
    → for_each check 0 l ≡ ok tt
    → (n : ℕ) × (check n x ≡ ok tt)
for_each-last check xs x last h = for_each-snoc check 0 xs x (ap (for_each check 0) (sym last) ∙ h)

validate-documents :
    (s : Snapshot)
    → validate s ≡ ok tt
    → (a : List ArtifactRef) × (documents s (cross_refs s a) ≡ ok tt)
unfolding validate
validate-documents s h =
    let (a, _, checked) = >>=-eq-ok (check_ids s) _ h in
    (a, (>>-eq-ok (documents s (cross_refs s a)) _ checked).0)

documents-checked_event :
    (s : Snapshot) (refs : CrossRefs)
    → documents s refs ≡ ok tt
    → for_each (checked_event s refs) 0 s.coordinator_events ≡ ok tt
unfolding documents
documents-checked_event s refs h = ground arith

checked_event-own :
    (s : Snapshot) (refs : CrossRefs) (i : ℕ) (e : CoordinatorEvent)
    → checked_event s refs i e ≡ ok tt
    → e.case_id ≡ s.manifest.case_id
unfolding checked_event
checked_event-own s refs i e h =
    let same : e.case_id == s.manifest.case_id ≡ true = ground arith in
    (eq_iff e.case_id s.manifest.case_id).0 same

-- The last event of a valid snapshot is of its case.
pub validate-own_event :
    (s : Snapshot) (es : List CoordinatorEvent) (e : CoordinatorEvent)
    → s.coordinator_events ≡ es ++ e ∷ []
    → validate s ≡ ok tt
    → e.case_id ≡ s.manifest.case_id
validate-own_event s es e last h =
    let (a, loops) = validate-documents s h in
    let refs = cross_refs s a in
    let (i, checked) =
      for_each-last (checked_event s refs) es e last (documents-checked_event s refs loops) in
    checked_event-own s refs i e checked

-- A valid snapshot with a workflow has its whole history: as many state-changing events as revisions,
-- one for each revision, each from the state that the one before it led to, the last to the current
-- state, which is compatible with the case's own state.
pub valid_history :
    (s : Snapshot) (w : CaseWorkflowState)
    → s.workflow_state ≡ some w
    → validate s ≡ ok tt
    → (changing : List CoordinatorEvent) × (collect_changing [] s.coordinator_events ≡ ok changing)
      × Continuous w changing
      × (compatible_workflow_and_case_state w.state s.manifest.current_state ≡ true)
unfolding validate_workflow_transition_integrity
valid_history s w hw h =
    let (hc, hi) = validate-workflow s w hw h in
    let (changing, h1, h2) = >>=-eq-ok (collect_changing [] s.coordinator_events) _ hi in
    let (h3, h4) = >>-eq-ok _ _ h2 in
    (
      changing,
      h1,
      check_revisions-Continuous w s.manifest.case_id s.coordinator_events changing h3,
      hc,
    )
