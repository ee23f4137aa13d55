-- ===== src/Coordinator/Commands/Consultation/Advisory.antt =====
-- What a consultation that is committed changes, internal/recovery/coordinator/consultation.go.
use mathlib.Core.List.{Memᴰ}
use effexor_win_doctor.Prelude.{
  contains_string, some-injective, not-false, String, ◌≡◌, refl, ap, sym, subst, ◌∙◌, ◌⊎◌, inl, inr,
  true, false, not, ◌&&◌, ◌==◌, Option, none, some, List, [], ◌∷◌, Result, ok, err, >>-eq-ok,
  >>=-eq-ok, guard-eq-ok, map_err-eq-ok, ok-injective, ok≢err, Result-cases, if_cases,
}
use effexor_win_doctor.Domain.Consultations.{AgentConsultation, validate_consultation}
use effexor_win_doctor.Domain.CrossRefs.{validate_consultation_refs}
use effexor_win_doctor.CaseStore.Snapshot.{Snapshot}
use effexor_win_doctor.CaseStore.Snapshot.Validation.{validate}
use effexor_win_doctor.CaseStore.Types.{CommitInfo}
use effexor_win_doctor.Coordinator.{
  CommandError, acquisition_conflict, invalid_snapshot, current_state, CaseView, Store, view_from,
}
use effexor_win_doctor.Coordinator.Access.{load_latest_verified, commit_snapshot}
use effexor_win_doctor.Coordinator.Commands.Consultation.Equal.{consultations_canonically_equal}
use effexor_win_doctor.Coordinator.Commands.Consultation.{
  ConsultationRequest, ConsultationResult, ConsultationDecision, repeat_consultation, append_one,
  is_analyzed, require_analyzed_for_consultation, find_consultation_replay, no_twin,
  with_consultation, append_consultation, new_consultation, replayed_or_new,
  check_consultation_request, build_cross_refs, consultation_of, decide_consultation,
  consultation_decision, consultation_shown, carry_out_consultation, commit_agent_consultation,
}

-- A consultation of the list that is the same.
abbrev pub Kept : List AgentConsultation → AgentConsultation → AgentConsultation → Type 0
Kept es cons found = Memᴰ found es × (consultations_canonically_equal found cons ≡ true)

find_consultation_replay-Kept :
    (case_id request_id : String) (cons found : AgentConsultation) (es : List AgentConsultation)
    → find_consultation_replay case_id request_id cons es ≡ some (ok found)
    → Kept es cons found
unfolding find_consultation_replay
find_consultation_replay-Kept case_id request_id cons found [] h = absurd (let z : ⊥ = cc in z)
find_consultation_replay-Kept case_id request_id cons found (e ∷ es) h =
    let rest = find_consultation_replay case_id request_id cons es in
    let conflict : Option (Result CommandError AgentConsultation) =
      some (err (acquisition_conflict case_id request_id)) in
    let ih : rest ≡ some (ok found) → Kept (e ∷ es) cons found = λ h'.
      let (m, k) = find_consultation_replay-Kept case_id request_id cons found es h' in
      (Memᴰ.tail m, k) in
    let refused : conflict ≡ some (ok found) → Kept (e ∷ es) cons found =
      λ h'. ok≢err _ found (some-injective _ _ h') in
    let same = consultations_canonically_equal e cons in
    let this : Option (Result CommandError AgentConsultation) = some (ok e) in
    let P = λ (o : Option (Result CommandError AgentConsultation)).
      o ≡ some (ok found) → Kept (e ∷ es) cons found in
    if_cases P (not (e.request_id == request_id) && not (e.consultation_id == cons.consultation_id))
      rest _ (λ _. ih)
      (λ _.
        if_cases P (e.request_id == request_id && not same) conflict _ (λ _. refused)
          (λ _.
            if_cases P (e.consultation_id == cons.consultation_id && not same) conflict _
              (λ _. refused)
              (λ _.
                if_cases P (not same) rest this (λ _. ih)
                  (λ k h'.
                    let is_found : e ≡ found = ok-injective e found (some-injective _ _ h') in
                    (
                      Memᴰ.head (sym is_found),
                      ap (λ x. consultations_canonically_equal x cons) (sym is_found)
                          ∙ not-false same k,
                    )))))
      h

-- The revision that a consultation makes: the latest one with the consultation, valid, at its end.
pub record Added (q : ConsultationRequest) (snap : Snapshot) (info : CommitInfo)
    (cons : AgentConsultation) : Type 0 where
  pub expected : q.expected_commit_id == info.commit_id ≡ true
  pub checked : validate_consultation cons ≡ ok tt
  pub own : contains_string (snap.manifest.case_id ∷ []) cons.case_id ≡ true
  pub no_other : no_twin snap.agent_consultations cons ≡ ok tt
  pub valid : validate (with_consultation snap cons) ≡ ok tt

new_consultation-Added :
    (q : ConsultationRequest) (snap : Snapshot) (info : CommitInfo) (cons : AgentConsultation)
    (d : ConsultationDecision)
    → new_consultation q snap info cons ≡ ok d
    → Added q snap info cons × (d ≡ append_one (with_consultation snap cons) info.commit_id cons)
unfolding new_consultation append_consultation validate_consultation_refs build_cross_refs
new_consultation-Added q snap info cons d h =
    let (h1, h2) = >>-eq-ok _ _ h in
    let (h3, h4) = >>-eq-ok _ _ h2 in
    let (h5, h6) = >>-eq-ok _ _ h4 in
    let (next, h7, h8) = >>=-eq-ok (append_consultation snap cons) _ h6 in
    let (h9, h10) = >>-eq-ok _ _ h7 in
    let (h11, h12) = >>-eq-ok _ _ h10 in
    let (h13, h14) = >>-eq-ok _ _ h12 in
    let made : with_consultation snap cons ≡ next = ok-injective _ next h14 in
    (
      record {
        expected = guard-eq-ok _ _ h3;
        checked = map_err-eq-ok invalid_snapshot (validate_consultation cons) tt h5;
        own =
            let refs =
              map_err-eq-ok invalid_snapshot
                (validate_consultation_refs cons (build_cross_refs snap)) tt h11 in
            guard-eq-ok _ _ (>>-eq-ok _ _ (>>-eq-ok _ _ refs).1).0;
        no_other = h9;
        valid = map_err-eq-ok invalid_snapshot (validate (with_consultation snap cons)) tt h13;
      },
      sym (ok-injective _ d h8) ∙ ap (λ n. append_one n info.commit_id cons) (sym made),
    )

-- What a decision is about.
abbrev Decided :
    ConsultationRequest → Snapshot → CommitInfo → AgentConsultation → ConsultationDecision → Type 0
Decided q snap info cons (repeat_consultation view found) =
    (view ≡ view_from snap info) × Kept snap.agent_consultations cons found
Decided q snap info cons (append_one next head c) =
    Added q snap info cons
    × (next ≡ with_consultation snap cons)
    × (head ≡ info.commit_id)
    × (c ≡ cons)

replayed_or_new-Decided :
    (q : ConsultationRequest) (snap : Snapshot) (info : CommitInfo) (cons : AgentConsultation)
    (found : Option (Result CommandError AgentConsultation)) (d : ConsultationDecision)
    → ((c : AgentConsultation) → found ≡ some (ok c) → Kept snap.agent_consultations cons c)
    → replayed_or_new q snap info cons found ≡ ok d
    → Decided q snap info cons d
unfolding replayed_or_new
replayed_or_new-Decided q snap info cons none d keep h =
    let (added, same) = new_consultation-Added q snap info cons d h in
    subst (Decided q snap info cons) (sym same) (added, refl, refl, refl)
replayed_or_new-Decided q snap info cons (some (err e)) d keep h = ok≢err e d h
replayed_or_new-Decided q snap info cons (some (ok c)) d keep h =
    subst (Decided q snap info cons) (ok-injective _ d h) (refl, keep c refl)

-- A consultation that passed, on the latest revision.
pub record Consulted {S : Type 0} (store : Store S) (sha : String → String) (s s' : S)
    (q : ConsultationRequest) (res : ConsultationResult) : Type 0 where
  pub snapshot : Snapshot
  pub info : CommitInfo
  pub loaded : load_latest_verified store s q.case_id ≡ ok (snapshot, info)
  pub checked : check_consultation_request q ≡ ok tt
  pub is_analysed : is_analyzed (current_state snapshot) ≡ true
  pub ended :
      ((s' ≡ s)
        × (res.idempotent ≡ true)
        × (res.case_view ≡ view_from snapshot info)
        × Kept snapshot.agent_consultations (consultation_of sha q info) res.consultation)
      ⊎ (Added q snapshot info (consultation_of sha q info)
          × (commit_snapshot store s
                (with_consultation snapshot (consultation_of sha q info))
                info.commit_id
              ≡ (s', ok res.case_view))
          × (res.consultation ≡ consultation_of sha q info)
          × (res.idempotent ≡ false))

module _ {S : Type 0} (store : Store S) (sha256_hex : String → String) where
  consultation_shown-ok :
      (cons : AgentConsultation) (p : S × Result CommandError CaseView) (s' : S)
      (res : ConsultationResult)
      → consultation_shown store sha256_hex cons p ≡ (s', ok res)
      → (p ≡ (s', ok res.case_view)) × (res.consultation ≡ cons) × (res.idempotent ≡ false)
  unfolding consultation_shown
  consultation_shown-ok cons (s, err e) s' res h = ok≢err e res (ap (λ x. x.1) h)
  consultation_shown-ok cons (s, ok view) s' res h =
      let made : ConsultationResult = record {
        case_view = view;
        consultation = cons;
        idempotent = false;
      } in
      let same : made ≡ res = ok-injective made res (ap (λ x. x.1) h) in
      (
        ap (λ (x : S × Result CommandError ConsultationResult). (x.0, ok view)) h
            ∙ ap (λ (b : ConsultationResult). (s', ok b.case_view)) same,
        ap (λ (b : ConsultationResult). b.consultation) (sym same),
        ap (λ (b : ConsultationResult). b.idempotent) (sym same),
      )

  carry_out_consultation-Consulted :
      (s s' : S) (q : ConsultationRequest) (res : ConsultationResult) (snap : Snapshot)
      (info : CommitInfo) (d : ConsultationDecision)
      → load_latest_verified store s q.case_id ≡ ok (snap, info)
      → check_consultation_request q ≡ ok tt
      → is_analyzed (current_state snap) ≡ true
      → Decided q snap info (consultation_of sha256_hex q info) d
      → carry_out_consultation store sha256_hex s (ok d) ≡ (s', ok res)
      → Consulted store sha256_hex s s' q res
  unfolding carry_out_consultation
  carry_out_consultation-Consulted s s' q res snap info (repeat_consultation view c) hl hq ha
        (shown, kept) h =
      let made : ConsultationResult = record {
        case_view = view;
        consultation = c;
        idempotent = true;
      } in
      let same : made ≡ res = ok-injective made res (ap (λ x. x.1) h) in
      subst (Consulted store sha256_hex s s' q) same (record {
        snapshot = snap;
        info = info;
        loaded = hl;
        checked = hq;
        is_analysed = ha;
        ended = inl (sym (ap (λ x. x.0) h), refl, shown, kept);
      })
  carry_out_consultation-Consulted s s' q res snap info (append_one next head c) hl hq ha
        (added, is_next, is_head, is_cons) h =
      let (hc, hr, hi) = consultation_shown-ok c (commit_snapshot store s next head) s' res h in
      record {
        snapshot = snap;
        info = info;
        loaded = hl;
        checked = hq;
        is_analysed = ha;
        ended = inr (
          added,
          sym (λ i. commit_snapshot store s (is_next i) (is_head i)) ∙ hc,
          hr ∙ is_cons,
          hi,
        );
      }

  -- A consultation that passes finds its case analysed. Either the case holds the same consultation,
  -- which is returned, and nothing is written; or no consultation of the case has its id or its
  -- request's id, and the latest revision, which the request expects, is committed with the valid
  -- consultation at its end and no other change: no event, finding, plan or workflow state.
  pub commit_agent_consultation-Consulted :
      (q : ConsultationRequest) (s s' : S) (res : ConsultationResult)
      → commit_agent_consultation store sha256_hex q s ≡ (s', ok res)
      → Consulted store sha256_hex s s' q res
  unfolding commit_agent_consultation consultation_decision decide_consultation
      require_analyzed_for_consultation carry_out_consultation
  commit_agent_consultation-Consulted q s s' res h =
      elim (Result-cases (consultation_decision store sha256_hex s q)) [
        | inr (e, he) ↦
            ok≢err e res
              (ap (λ x. x.1) (sym (ap (carry_out_consultation store sha256_hex s) he) ∙ h))
        | inl (d, hd) ↦
            let (h1, h2) = >>-eq-ok _ _ hd in
            let ((snap, info), h3, h4) = >>=-eq-ok (load_latest_verified store s q.case_id) _ h2 in
            let (h5, h6) = >>-eq-ok _ _ h4 in
            let cons = consultation_of sha256_hex q info in
            carry_out_consultation-Consulted s s' q res snap info d h3 h1 (guard-eq-ok _ _ h5)
              (replayed_or_new-Decided q snap info cons
                (find_consultation_replay snap.manifest.case_id q.request_id cons
                  snap.agent_consultations)
                d
                (λ c k.
                  find_consultation_replay-Kept snap.manifest.case_id q.request_id cons c
                    snap.agent_consultations k)
                h6)
              (sym (ap (carry_out_consultation store sha256_hex s) hd) ∙ h)
      ]
