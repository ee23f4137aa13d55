-- ===== src/CaseStore/Chain/Runs.antt =====
-- Runs of commits on one case, in any order and at any times.
use effexor_win_doctor.Prelude.{
  ℕ, String, ◌≡◌, refl, ap, sym, subst, ◌∙◌, true, false, not, ◌&&◌, Option, none, some, List, [],
  ◌∷◌, ◌++◌, ◌+◌, arith, ◌==◌, ok, length, is_empty, length-append, ◌⊎◌, inl, inr, Result-cases,
  ◌<◌, ◌≤◌, >>-eq-ok, guard-eq-ok, guard,
}
use effexor_win_doctor.CaseStore.Snapshot.Validation.{validate}
use effexor_win_doctor.CaseStore.Types.{CommitInfo, CommitRequest, ParentExpectation, case_exists}
use effexor_win_doctor.CaseStore.Chain.{
  CommitRecord, Hashes, head_of, record_after, commit_locked, before_parent,
  verify_committed_history, check_expectation, validate_expectation, repeats, actual, is_absent,
}
use effexor_win_doctor.CaseStore.Chain.Linked.{
  Linked, nil, Grown, decided-Grown, commit_locked-err, record_after-Linked,
}

-- A commit that passes was of a valid snapshot.
pub commit_locked-Grown :
    (h : Hashes) (at : String) (chain chain' : List CommitRecord) (q : CommitRequest)
    (info : CommitInfo)
    → commit_locked h at chain q ≡ (chain', ok info)
    → (validate q.snapshot ≡ ok tt) × Grown h at chain chain' q info
unfolding commit_locked before_parent
commit_locked-Grown h at chain chain' q info hc =
    let (hb, hg) = decided-Grown h at chain chain' q (before_parent chain q) info hc in
    (ground arith, hg)

-- Every record's snapshot is valid.
pub history-snoc :
    (chain : List CommitRecord) (c : CommitRecord)
    → verify_committed_history chain ≡ ok tt
    → validate c.snapshot ≡ ok tt
    → verify_committed_history (chain ++ c ∷ []) ≡ ok tt
unfolding verify_committed_history
history-snoc [] c h hc = ground arith
history-snoc (d ∷ chain) c h hc =
    let (h1, h2) = >>-eq-ok _ _ h in let rest = history-snoc chain c h2 hc in ground arith

-- Commits at given times, one after another; a commit that fails is passed over.
unfoldable pub commits :
    Hashes → List CommitRecord → List (String × CommitRequest) → List CommitRecord
commits h chain [] = chain
commits h chain ((at, q) ∷ qs) = commits h (commit_locked h at chain q).0 qs

-- What every chain of a run has.
pub record Sound (n : ℕ) (chain : List CommitRecord) : Type 0 where
  pub linked : Linked 0 none chain
  pub valid : verify_committed_history chain ≡ ok tt
  pub bounded : length chain ≤ n

kept-Sound : (chain : List CommitRecord) (n : ℕ) → Sound n chain → Sound (n + 1) chain
kept-Sound chain n s = record {
  linked = s.linked;
  valid = s.valid;
  bounded = omega (arith, s.bounded);
}

grown-Sound :
    (h : Hashes) (at : String) (chain : List CommitRecord) (q : CommitRequest) (n : ℕ)
    → n + 1 < 18446744073709551616
    → Sound n chain
    → validate q.snapshot ≡ ok tt
    → Sound (n + 1) (chain ++ record_after h at (head_of chain) q ∷ [])
unfolding record_after
grown-Sound h at chain q n small s hv = record {
  linked = record_after-Linked h at chain q s.linked (omega (arith, s.bounded));
  valid = history-snoc chain (record_after h at (head_of chain) q) s.valid hv;
  bounded =
      omega (arith, s.bounded, length-append chain (record_after h at (head_of chain) q ∷ []));
}

step-Sound :
    (h : Hashes) (at : String) (chain : List CommitRecord) (q : CommitRequest) (n : ℕ)
    → n + 1 < 18446744073709551616
    → Sound n chain
    → Sound (n + 1) (commit_locked h at chain q).0
unfolding Grown
step-Sound h at chain q n small s =
    let chain' = (commit_locked h at chain q).0 in
    elim (Result-cases (commit_locked h at chain q).1) [
      | inr (e, he) ↦
          let same = commit_locked-err h at chain chain' q e (ap (λ r. (chain', r)) he) in
          subst (Sound (n + 1)) (sym same) (kept-Sound chain n s)
      | inl (info, hi) ↦
          let (hv, hg) = commit_locked-Grown h at chain chain' q info (ap (λ r. (chain', r)) hi) in
          elim hg [
            | inl (same, _) ↦ subst (Sound (n + 1)) (sym same) (kept-Sound chain n s)
            | inr (more, _, _) ↦
                subst (Sound (n + 1)) (sym more) (grown-Sound h at chain q n small s hv)
          ]
    ]

commits-Sound_from :
    (h : Hashes) (chain : List CommitRecord) (qs : List (String × CommitRequest)) (n : ℕ)
    → n + length qs < 18446744073709551616
    → Sound n chain
    → Sound (n + length qs) (commits h chain qs)
unfolding commits
commits-Sound_from h chain [] n small s = subst (λ m. Sound m chain) (omega arith) s
commits-Sound_from h chain ((at, q) ∷ qs) n small s =
    subst (λ m. Sound m (commits h (commit_locked h at chain q).0 qs)) (omega arith)
      (commits-Sound_from h (commit_locked h at chain q).0 qs (n + 1) (omega arith)
        (step-Sound h at chain q n (omega arith) s))

-- After any commits on a new case, at most 2^64 - 1 of them, the chain's sequences count from 1, each
-- record's parent is the record before it, every record's snapshot is valid, and there is at most a
-- record for each commit.
pub commits-Sound :
    (h : Hashes) (qs : List (String × CommitRequest))
    → length qs < 18446744073709551616
    → Sound (length qs) (commits h [] qs)
unfolding verify_committed_history
commits-Sound h qs small =
    subst (λ m. Sound m (commits h [] qs)) (omega arith)
      (commits-Sound_from h [] qs 0 (omega arith)
        (record { linked = nil; valid = refl; bounded = omega arith }))

-- A commit that expects a parent, when it passes, repeats the head's snapshot and changes nothing, or
-- the expected commit is the head and the new record is put on it.
pub commit_on_parent :
    (h : Hashes) (at id : String) (chain chain' : List CommitRecord) (q : CommitRequest)
    (info : CommitInfo)
    → q.parent_expectation ≡ ParentExpectation.commit id
    → commit_locked h at chain q ≡ (chain', ok info)
    → ((chain' ≡ chain) × (repeats h (head_of chain) q ≡ true))
      ⊎ ((actual (head_of chain) == id ≡ true)
          × (chain' ≡ chain ++ record_after h at (head_of chain) q ∷ []))
unfolding Grown check_expectation
commit_on_parent h at id chain chain' q info hp hc =
    elim (commit_locked-Grown h at chain chain' q info hc).1 [
      | inl kept ↦ inl kept
      | inr (more, checked, _) ↦
          let (_, hm) = >>-eq-ok _ _ (sym (ap (λ p. check_expectation p chain) hp) ∙ checked) in
          inr (guard-eq-ok _ _ hm, more)
    ]

repeats-absent :
    (h : Hashes) (head : Option CommitRecord) (q : CommitRequest)
    → q.parent_expectation ≡ ParentExpectation.absent
    → repeats h head q ≡ false
unfolding repeats is_absent
repeats-absent h none q hp = refl
repeats-absent h (some c) q hp =
    ap (λ p. not (is_absent p) && c.snapshot_id == h.snapshot_id_of q.snapshot) hp

length-after_empty :
    (chain : List CommitRecord) (c : CommitRecord)
    → is_empty chain ≡ true
    → length (chain ++ c ∷ []) ≡ 1
length-after_empty [] c h = refl
length-after_empty (d ∷ chain) c h = absurd (let z : ⊥ = cc in z)

-- A commit that expects no parent, when it passes, is the first of its case.
pub commit_absent :
    (h : Hashes) (at : String) (chain chain' : List CommitRecord) (q : CommitRequest)
    (info : CommitInfo)
    → q.parent_expectation ≡ ParentExpectation.absent
    → commit_locked h at chain q ≡ (chain', ok info)
    → (is_empty chain ≡ true) × (length chain' ≡ 1)
unfolding Grown check_expectation
commit_absent h at chain chain' q info hp hc =
    let c = record_after h at (head_of chain) q in
    elim (commit_locked-Grown h at chain chain' q info hc).1 [
      | inl (_, again) ↦
          absurd (let no = repeats-absent h (head_of chain) q hp in let z : ⊥ = cc in z)
      | inr (more, checked, _) ↦
          let (_, hm) =
            >>-eq-ok (validate_expectation ParentExpectation.absent)
              (guard (is_empty chain) case_exists)
              (sym (ap (λ p. check_expectation p chain) hp) ∙ checked) in
          let empty = guard-eq-ok _ _ hm in
          (empty, ap length more ∙ length-after_empty chain c empty)
    ]
