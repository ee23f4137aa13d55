-- ===== src/CaseStore/Chain/Linked.antt =====
-- The chain that commits of internal/recovery/casestore/commit.go leave: its sequences and parents.
use effexor_win_doctor.Prelude.{
  ℕ, String, ◌≡◌, refl, ap, sym, ◌∙◌, true, false, Option, none, some, List, [], ◌∷◌, ◌++◌, ◌+◌,
  arith, Result, ok, err, if_cases, length, ◌⊎◌, inl, inr, ok≢err, ok-injective, ◌<◌,
}
use effexor_win_doctor.CaseStore.Types.{StoreError, CommitInfo, CommitRequest}
use effexor_win_doctor.CaseStore.Chain.{
  CommitRecord, Hashes, head_of, next_sequence, parent_of, record_after, commit_locked,
  before_parent, decided, repeats, appended, repeated, check_expectation, info_of,
}

appended-ok :
    (chain chain' : List CommitRecord) (c : CommitRecord) (r : Result StoreError (Unit {0}))
    (info : CommitInfo)
    → appended chain c r ≡ (chain', ok info)
    → (r ≡ ok tt) × (chain' ≡ chain ++ c ∷ []) × (info ≡ info_of false c)
unfolding appended
appended-ok chain chain' c (ok tt) info h =
    (refl, sym (ap (λ p. p.0) h), sym (ok-injective _ info (ap (λ p. p.1) h)))
appended-ok chain chain' c (err e) info h = ok≢err e info (ap (λ p. p.1) h)

repeated-ok :
    (chain chain' : List CommitRecord) (head : Option CommitRecord) (info : CommitInfo)
    → repeated chain head ≡ (chain', ok info)
    → chain' ≡ chain
unfolding repeated
repeated-ok chain chain' none info h = sym (ap (λ p. p.0) h)
repeated-ok chain chain' (some c) info h = sym (ap (λ p. p.0) h)

-- What a commit does to the chain: nothing, or one record at its end, which is built on the head.
unfoldable pub Grown :
    Hashes → String → List CommitRecord → List CommitRecord → CommitRequest → CommitInfo → Type 0
Grown h at chain chain' q info =
    ((chain' ≡ chain) × (repeats h (head_of chain) q ≡ true))
    ⊎ ((chain' ≡ chain ++ record_after h at (head_of chain) q ∷ [])
        × (check_expectation q.parent_expectation chain ≡ ok tt)
        × (info ≡ info_of false (record_after h at (head_of chain) q)))

pub decided-Grown :
    (h : Hashes) (at : String) (chain chain' : List CommitRecord) (q : CommitRequest)
    (r : Result StoreError (Unit {0})) (info : CommitInfo)
    → decided h at chain q r ≡ (chain', ok info)
    → (r ≡ ok tt) × Grown h at chain chain' q info
unfolding decided Grown
decided-Grown h at chain chain' q (err e) info hc = ok≢err e info (ap (λ p. p.1) hc)
decided-Grown h at chain chain' q (ok tt) info hc =
    let c = record_after h at (head_of chain) q in
    let checked = check_expectation q.parent_expectation chain in
    (
      refl,
      if_cases (λ p. p ≡ (chain', ok info) → Grown h at chain chain' q info)
          (repeats h (head_of chain) q) (repeated chain (head_of chain)) (appended chain c checked)
          (λ same h'. inl (repeated-ok chain chain' (head_of chain) info h', same))
          (λ _ h'.
            let (h1, h2, h3) = appended-ok chain chain' c checked info h' in inr (h2, h1, h3))
          hc,
    )

appended-err :
    (chain chain' : List CommitRecord) (c : CommitRecord) (r : Result StoreError (Unit {0}))
    (e : StoreError)
    → appended chain c r ≡ (chain', err e)
    → chain' ≡ chain
unfolding appended
appended-err chain chain' c (ok tt) e h = ok≢err e _ (sym (ap (λ p. p.1) h))
appended-err chain chain' c (err e') e h = sym (ap (λ p. p.0) h)

repeated-err :
    (chain chain' : List CommitRecord) (head : Option CommitRecord) (e : StoreError)
    → repeated chain head ≡ (chain', err e)
    → chain' ≡ chain
unfolding repeated
repeated-err chain chain' none e h = sym (ap (λ p. p.0) h)
repeated-err chain chain' (some c) e h = sym (ap (λ p. p.0) h)

decided-err :
    (h : Hashes) (at : String) (chain chain' : List CommitRecord) (q : CommitRequest)
    (r : Result StoreError (Unit {0})) (e : StoreError)
    → decided h at chain q r ≡ (chain', err e)
    → chain' ≡ chain
unfolding decided
decided-err h at chain chain' q (err e') e hc = sym (ap (λ p. p.0) hc)
decided-err h at chain chain' q (ok tt) e hc =
    if_cases (λ p. p ≡ (chain', err e) → chain' ≡ chain) (repeats h (head_of chain) q)
      (repeated chain (head_of chain))
      (appended chain (record_after h at (head_of chain) q)
        (check_expectation q.parent_expectation chain))
      (λ _ h'. repeated-err chain chain' (head_of chain) e h')
      (λ _ h'. appended-err chain chain' (record_after h at (head_of chain) q) _ e h') hc

-- Sequences count up from a number, and each parent is the commit before.
pub data Linked : ℕ → Option String → List CommitRecord → Type 0 where
  nil : {n : ℕ} {p : Option String} → Linked n p []
  cons :
      {n : ℕ} {p : Option String} {c : CommitRecord} {chain : List CommitRecord}
      → c.sequence ≡ n + 1
      → c.parent_commit_id ≡ p
      → Linked (n + 1) (some c.commit_id) chain
      → Linked n p (c ∷ chain)

last_id : Option String → List CommitRecord → Option String
last_id p [] = p
last_id p (c ∷ chain) = last_id (some c.commit_id) chain

Linked-snoc :
    (n : ℕ) (p : Option String) (chain : List CommitRecord) (c : CommitRecord)
    → Linked n p chain
    → c.sequence ≡ n + length chain + 1
    → c.parent_commit_id ≡ last_id p chain
    → Linked n p (chain ++ c ∷ [])
unfolding last_id
Linked-snoc n p [] c nil hs hp = cons (omega arith) hp nil
Linked-snoc n p (d ∷ chain) c (cons ds dp l) hs hp =
    cons ds dp (Linked-snoc (n + 1) (some d.commit_id) chain c l (omega arith) hp)

head-Linked :
    (n : ℕ) (p : Option String) (c : CommitRecord) (chain : List CommitRecord)
    → Linked n p (c ∷ chain)
    → (head : CommitRecord) × (head_of (c ∷ chain) ≡ some head)
      × (head.sequence ≡ n + length chain + 1)
      × (last_id p (c ∷ chain) ≡ some head.commit_id)
unfolding head_of last_id
head-Linked n p c [] (cons cs cp nil) = (c, refl, omega arith, refl)
head-Linked n p c (d ∷ chain) (cons cs cp l) =
    let (head, h1, h2, h3) = head-Linked (n + 1) (some c.commit_id) d chain l in
    (head, h1, omega arith, h3)

next_sequence-small :
    (head : CommitRecord) (n : ℕ)
    → head.sequence ≡ n
    → n + 1 < 18446744073709551616
    → next_sequence (some head) ≡ n + 1
unfolding next_sequence
next_sequence-small head n h small = omega arith

-- The record that a commit builds continues the chain.
pub record_after-Linked :
    (h : Hashes) (at : String) (chain : List CommitRecord) (q : CommitRequest)
    → Linked 0 none chain
    → length chain + 1 < 18446744073709551616
    → Linked 0 none (chain ++ record_after h at (head_of chain) q ∷ [])
unfolding record_after last_id head_of
record_after-Linked h at [] q l small = cons refl refl nil
record_after-Linked h at (c ∷ chain) q l small =
    let (head, h1, h2, h3) = head-Linked 0 none c chain l in
    Linked-snoc 0 none (c ∷ chain) (record_after h at (head_of (c ∷ chain)) q) l
      (ap next_sequence h1
        ∙ next_sequence-small head (0 + length chain + 1) h2 (omega arith)
        ∙ omega arith)
      (ap parent_of h1 ∙ sym h3)

-- A commit that fails leaves the chain as it was.
pub commit_locked-err :
    (h : Hashes) (at : String) (chain chain' : List CommitRecord) (q : CommitRequest)
    (e : StoreError)
    → commit_locked h at chain q ≡ (chain', err e)
    → chain' ≡ chain
unfolding commit_locked
commit_locked-err h at chain chain' q e hc =
    decided-err h at chain chain' q (before_parent chain q) e hc
