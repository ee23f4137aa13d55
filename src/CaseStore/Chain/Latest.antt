-- ===== src/CaseStore/Chain/Latest.antt =====
-- What a commit of internal/recovery/casestore/commit.go leaves for the next read.
use effexor_win_doctor.Prelude.{
  String, ◌≡◌, refl, ap, sym, ◌∙◌, true, false, Option, none, some, List, [], ◌∷◌, ◌++◌, ok, err,
  is_empty, arith, Result, ok-injective, ok≢err, if_cases, Result-cases, inl, inr, >>-eq-ok,
}
use effexor_win_doctor.Domain.Patterns.{re_case_id}
use effexor_win_doctor.CaseStore.Types.{StoreError, CommitInfo, CommitRequest}
use effexor_win_doctor.CaseStore.Chain.{
  CommitRecord, Hashes, head_of, record_after, commit_locked, before_parent, repeats, repeated,
  appended, decided, info_of, check_expectation, verify_committed_history, load_latest, latest,
}
use effexor_win_doctor.CaseStore.Chain.Linked.{Grown}
use effexor_win_doctor.CaseStore.Chain.Runs.{commit_locked-Grown, history-snoc}

-- The head of the chain is the record that the commit's info names.
pub record Named (chain : List CommitRecord) (info : CommitInfo) : Type 0 where
  pub head : CommitRecord
  pub is_head : head_of chain ≡ some head
  pub named : head.commit_id ≡ info.commit_id

head_of-snoc : (chain : List CommitRecord) (c : CommitRecord) → head_of (chain ++ c ∷ []) ≡ some c
unfolding head_of
head_of-snoc [] c = refl
head_of-snoc (d ∷ []) c = refl
head_of-snoc (d ∷ e ∷ chain) c = head_of-snoc (e ∷ chain) c

repeated-Named :
    (chain chain' : List CommitRecord) (head : Option CommitRecord) (info : CommitInfo)
    → head_of chain ≡ head
    → repeated chain head ≡ (chain', ok info)
    → Named chain' info
unfolding repeated info_of
repeated-Named chain chain' none info hh h = ok≢err _ info (ap (λ p. p.1) h)
repeated-Named chain chain' (some c) info hh h = record {
  head = c;
  is_head = ap head_of (sym (ap (λ p. p.0) h)) ∙ hh;
  named = ap (λ (i : CommitInfo). i.commit_id) (ok-injective _ info (ap (λ p. p.1) h));
}

appended-Named :
    (chain chain' : List CommitRecord) (c : CommitRecord) (r : Result StoreError (Unit {0}))
    (info : CommitInfo)
    → appended chain c r ≡ (chain', ok info)
    → Named chain' info
unfolding appended info_of
appended-Named chain chain' c (err e) info h = ok≢err _ info (ap (λ p. p.1) h)
appended-Named chain chain' c (ok u) info h = record {
  head = c;
  is_head = ap head_of (sym (ap (λ p. p.0) h)) ∙ head_of-snoc chain c;
  named = ap (λ (i : CommitInfo). i.commit_id) (ok-injective _ info (ap (λ p. p.1) h));
}

decided-Named :
    (h : Hashes) (at : String) (chain chain' : List CommitRecord) (q : CommitRequest)
    (r : Result StoreError (Unit {0})) (info : CommitInfo)
    → decided h at chain q r ≡ (chain', ok info)
    → Named chain' info
unfolding decided
decided-Named h at chain chain' q (err e) info hc = ok≢err e info (ap (λ p. p.1) hc)
decided-Named h at chain chain' q (ok tt) info hc =
    let c = record_after h at (head_of chain) q in
    let checked = check_expectation q.parent_expectation chain in
    if_cases (λ p. p ≡ (chain', ok info) → Named chain' info) (repeats h (head_of chain) q)
      (repeated chain (head_of chain)) (appended chain c checked)
      (λ _ h'. repeated-Named chain chain' (head_of chain) info refl h')
      (λ _ h'. appended-Named chain chain' c checked info h') hc

pub commit_locked-Named :
    (h : Hashes) (at : String) (chain chain' : List CommitRecord) (q : CommitRequest)
    (info : CommitInfo)
    → commit_locked h at chain q ≡ (chain', ok info)
    → Named chain' info
unfolding commit_locked
commit_locked-Named h at chain chain' q info hc =
    decided-Named h at chain chain' q (before_parent chain q) info hc

-- A commit that is not a repetition puts its record at the head.
pub commit_locked-Written :
    (h : Hashes) (at : String) (chain chain' : List CommitRecord) (q : CommitRequest)
    (info : CommitInfo)
    → commit_locked h at chain q ≡ (chain', ok info)
    → info.idempotent ≡ false
    → head_of chain' ≡ some (record_after h at (head_of chain) q)
unfolding commit_locked decided repeated appended info_of
commit_locked-Written h at chain chain' q info hc hi = elim (Result-cases (before_parent chain q)) [
  | inr (e, he) ↦ ok≢err e info (ap (λ p. p.1) (sym (ap (decided h at chain q) he) ∙ hc))
  | inl (u, hu) ↦
      let c = record_after h at (head_of chain) q in
      let checked = check_expectation q.parent_expectation chain in
      if_cases (λ p. p ≡ (chain', ok info) → head_of chain' ≡ some c) (repeats h (head_of chain) q)
        (repeated chain (head_of chain)) (appended chain c checked)
        (λ _ k. not_again (head_of chain) k) (λ _ k. was_appended c checked k)
        (sym (ap (decided h at chain q) hu) ∙ hc)
]
  where
    not_again :
        (head : Option CommitRecord)
        → repeated chain head ≡ (chain', ok info)
        → head_of chain' ≡ some (record_after h at (head_of chain) q)
    not_again none k = ok≢err _ info (ap (λ p. p.1) k)
    not_again (some c) k = absurd (
        let i = ap (λ (i : CommitInfo). i.idempotent) (ok-injective _ info (ap (λ p. p.1) k)) in
        let z : ⊥ = cc in z)

    was_appended :
        (c : CommitRecord) (r : Result StoreError (Unit {0}))
        → appended chain c r ≡ (chain', ok info)
        → head_of chain' ≡ some c
    was_appended c (err e) k = ok≢err _ info (ap (λ p. p.1) k)
    was_appended c (ok u) k = ap head_of (sym (ap (λ p. p.0) k)) ∙ head_of-snoc chain c

-- A commit that passes was made on a verified history.
commit_locked-verified :
    (h : Hashes) (at : String) (chain chain' : List CommitRecord) (q : CommitRequest)
    (info : CommitInfo)
    → commit_locked h at chain q ≡ (chain', ok info)
    → verify_committed_history chain ≡ ok tt
unfolding commit_locked before_parent
commit_locked-verified h at chain chain' q info hc = elim (Result-cases (before_parent chain q)) [
  | inr (e, he) ↦ ok≢err e info (ap (λ p. p.1) (sym (ap (λ r. decided h at chain q r) he) ∙ hc))
  | inl (u, hu) ↦ let (h1, h2) = >>-eq-ok _ _ hu in let (h3, h4) = >>-eq-ok _ _ h2 in h3
]

-- A commit that passes leaves a history that verifies.
pub history-commit_locked :
    (h : Hashes) (at : String) (chain chain' : List CommitRecord) (q : CommitRequest)
    (info : CommitInfo)
    → commit_locked h at chain q ≡ (chain', ok info)
    → verify_committed_history chain' ≡ ok tt
unfolding Grown record_after
history-commit_locked h at chain chain' q info hc =
    let old = commit_locked-verified h at chain chain' q info hc in
    let (hv, hg) = commit_locked-Grown h at chain chain' q info hc in
    elim hg [
      | inl (same, _) ↦ ap verify_committed_history same ∙ old
      | inr (more, _, _) ↦
          ap verify_committed_history more
          ∙ history-snoc chain (record_after h at (head_of chain) q) old hv
    ]

pub is_empty-head_of :
    (chain : List CommitRecord) (c : CommitRecord) → head_of chain ≡ some c → is_empty chain ≡ false
unfolding head_of
is_empty-head_of [] c h = absurd (let z : ⊥ = cc in z)
is_empty-head_of (d ∷ chain) c h = refl

-- A read of a history that verifies gives the head.
pub load_latest-head :
    (chain : List CommitRecord) (case_id : String) (c : CommitRecord)
    → re_case_id case_id ≡ true
    → verify_committed_history chain ≡ ok tt
    → head_of chain ≡ some c
    → load_latest chain case_id ≡ ok (c.snapshot, info_of false c)
unfolding load_latest latest
load_latest-head chain case_id c hid hv hc = ground arith
