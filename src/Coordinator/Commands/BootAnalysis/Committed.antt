-- ===== src/Coordinator/Commands/BootAnalysis/Committed.antt =====
-- What a boot doctor's analysis that passes did, internal/recovery/coordinator/bootdoctor.go.
use effexor_win_doctor.Prelude.{
  ◌==◌, not-true, String, ◌≡◌, refl, ap, sym, subst, ◌∙◌, ◌⊎◌, inl, inr, true, false, not, Option,
  List, is_empty, Result, ok, err, >>-eq-ok, >>=-eq-ok, guard-eq-ok, map_err, map_err-eq-ok,
  ok-injective, ok≢err, Result-cases, if_cases,
}
use effexor_win_doctor.Domain.Events.{deterministic_analyzer}
use effexor_win_doctor.Domain.Evidence.{EvidenceBundle, Finding}
use effexor_win_doctor.Domain.Topology.{WindowsBootTopology}
use effexor_win_doctor.BootDoctor.Analyze.{analyze}
use effexor_win_doctor.BootDoctor.Analyze.Grounded.{AllGrounded, analyze-AllGrounded}
use effexor_win_doctor.CaseStore.Snapshot.{Snapshot}
use effexor_win_doctor.CaseStore.Types.{CommitInfo}
use effexor_win_doctor.Coordinator.{
  CommandError, invalid_snapshot, Readings, CommitAnalysisRequest, CaseView, Store, view_from,
}
use effexor_win_doctor.Coordinator.Access.{load_latest_verified}
use effexor_win_doctor.Coordinator.State.{default_actor}
use effexor_win_doctor.Coordinator.Commands.Analysis.{commit_analysis}
use effexor_win_doctor.Coordinator.Commands.BootAnalysis.Selected.{
  Selected, select_topology_evidence-Selected,
}
use effexor_win_doctor.Coordinator.Acquire.RequestId.{validate_acquisition_request_id}
use effexor_win_doctor.Coordinator.Commands.BootAnalysis.{
  analysis_request_of, BootAnalysisRequest, BootAnalysisResult, Decision, replay, commit,
  is_advisor, findings_subset_equal, was_committed, decide, select_topology_evidence, input_of,
  analyzed_findings, decided_command, committed, carried_out, commit_boot_doctor_analysis,
}

-- Findings of a topology of the revision, which rest on its evidence and targets.
pub record Analysed (decode : String → Option WindowsBootTopology) (sha : String → String)
    (q : BootAnalysisRequest) (snap : Snapshot) (topo : WindowsBootTopology)
    (findings : List Finding) : Type 0 where
  pub analysis : analyzed_findings decode sha q snap ≡ ok (topo, findings)
  pub evidence : EvidenceBundle
  pub selected : Selected decode snap q.topology_evidence_id evidence topo
  pub computed : analyze sha (input_of q snap evidence topo) ≡ ok findings
  pub grounded : AllGrounded (input_of q snap evidence topo) findings
  pub some_found : not (is_empty findings) ≡ true

analyzed_findings-Analysed :
    (decode : String → Option WindowsBootTopology) (sha : String → String) (q : BootAnalysisRequest)
    (snap : Snapshot) (topo : WindowsBootTopology) (findings : List Finding)
    → analyzed_findings decode sha q snap ≡ ok (topo, findings)
    → Analysed decode sha q snap topo findings
unfolding analyzed_findings
analyzed_findings-Analysed decode sha q snap topo findings h =
    let ((e, t), h1, h2) =
      >>=-eq-ok (select_topology_evidence decode snap q.topology_evidence_id) _ h in
    let (fs, h3, h4) =
      >>=-eq-ok (map_err {A = List Finding} invalid_snapshot (analyze sha (input_of q snap e t))) _
        h2 in
    let (h5, h6) = >>-eq-ok _ _ h4 in
    let same : (t, fs) ≡ (topo, findings) = ok-injective _ _ h6 in
    let made : analyze sha (input_of q snap e t) ≡ ok fs =
      map_err-eq-ok invalid_snapshot (analyze sha (input_of q snap e t)) fs h3 in
    subst (λ p. Analysed decode sha q snap p.0 p.1) same
      (record {
        analysis = h ∙ ap ok (sym same);
        evidence = e;
        selected = select_topology_evidence-Selected decode snap q.topology_evidence_id e t h1;
        computed = made;
        grounded = (analyze-AllGrounded sha (input_of q snap e t) fs made).0;
        some_found = guard-eq-ok _ _ h5;
      })

-- What a decision is about: an earlier event of the request, or the expected commit.
abbrev Decided :
    BootAnalysisRequest
    → Snapshot
    → CommitInfo
    → WindowsBootTopology
    → List Finding
    → Decision
    → Type 0
Decided q snap info topo findings (replay result) =
    (result ≡ record {
      case_view = view_from snap info;
      findings = findings;
      topology = topo;
      idempotent = true;
    })
    × (was_committed snap.coordinator_events q.request_id ≡ true)
    × (findings_subset_equal snap.findings findings ≡ true)
Decided q snap info topo findings (commit request t) =
    (request ≡ analysis_request_of q findings)
    × (t ≡ topo)
    × (not (q.expected_commit_id == "") ≡ true)
    × (was_committed snap.coordinator_events q.request_id ≡ false)

decide-Decided :
    (q : BootAnalysisRequest) (snap : Snapshot) (info : CommitInfo) (topo : WindowsBootTopology)
    (findings : List Finding) (d : Decision)
    → decide q snap info topo findings ≡ ok d
    → Decided q snap info topo findings d
unfolding decide
decide-Decided q snap info topo findings d h =
    if_cases (λ r. r ≡ ok d → Decided q snap info topo findings d)
      (was_committed snap.coordinator_events q.request_id) _ _
      (λ seen k.
        let (k1, k2) = >>-eq-ok _ _ k in
        subst (Decided q snap info topo findings) (ok-injective _ d k2)
          (refl, seen, guard-eq-ok _ _ k1))
      (λ new k.
        let (k1, k2) = >>-eq-ok _ _ k in
        let (k3, k4) = >>-eq-ok _ _ k2 in
        subst (Decided q snap info topo findings) (ok-injective _ d k4)
          (refl, refl, guard-eq-ok _ _ k1, new))
      h

-- An earlier analysis of the request is repeated; or this one is committed on the expected commit.
abbrev Ended :
    {S : Type 0}
    → Store S
    → Readings
    → S
    → S
    → BootAnalysisRequest
    → Snapshot
    → BootAnalysisResult
    → Type 0
Ended store r s s' q snap res =
    ((s' ≡ s)
      × (res.idempotent ≡ true)
      × (was_committed snap.coordinator_events q.request_id ≡ true)
      × (findings_subset_equal snap.findings res.findings ≡ true))
    ⊎ ((commit_analysis store r (analysis_request_of q res.findings) s ≡ (s', ok res.case_view))
        × (res.idempotent ≡ false)
        × (not (q.expected_commit_id == "") ≡ true)
        × (was_committed snap.coordinator_events q.request_id ≡ false))

-- A command that passed, on the latest revision.
pub record Completed {S : Type 0} (store : Store S) (decode : String → Option WindowsBootTopology)
    (sha : String → String) (r : Readings) (s s' : S) (q : BootAnalysisRequest)
    (res : BootAnalysisResult) : Type 0 where
  pub snapshot : Snapshot
  pub info : CommitInfo
  pub loaded : load_latest_verified store s q.case_id ≡ ok (snapshot, info)
  pub named : validate_acquisition_request_id q.request_id ≡ ok tt
  pub not_advisor : is_advisor (default_actor q.actor deterministic_analyzer) ≡ false
  pub analysed : Analysed decode sha q snapshot res.topology res.findings
  pub ended : Ended store r s s' q snapshot res

module _ {S : Type 0} (store : Store S) (decode : String → Option WindowsBootTopology)
    (sha256_hex : String → String) where
  committed-ok :
      (findings : List Finding) (topo : WindowsBootTopology) (p : S × Result CommandError CaseView)
      (s' : S) (res : BootAnalysisResult)
      → committed store decode sha256_hex findings topo p ≡ (s', ok res)
      → (p ≡ (s', ok res.case_view))
        × (res.findings ≡ findings)
        × (res.topology ≡ topo)
        × (res.idempotent ≡ false)
  unfolding committed
  committed-ok findings topo (s, err e) s' res h = ok≢err e res (ap (λ x. x.1) h)
  committed-ok findings topo (s, ok view) s' res h =
      let made : BootAnalysisResult = record {
        case_view = view;
        findings = findings;
        topology = topo;
        idempotent = false;
      } in
      let same : made ≡ res = ok-injective made res (ap (λ x. x.1) h) in
      (
        ap (λ (x : S × Result CommandError BootAnalysisResult). (x.0, ok view)) h
            ∙ ap (λ (b : BootAnalysisResult). (s', ok b.case_view)) same,
        ap (λ (b : BootAnalysisResult). b.findings) (sym same),
        ap (λ (b : BootAnalysisResult). b.topology) (sym same),
        ap (λ (b : BootAnalysisResult). b.idempotent) (sym same),
      )

  carried_out-Completed :
      (r : Readings) (s s' : S) (q : BootAnalysisRequest) (res : BootAnalysisResult)
      (snap : Snapshot) (info : CommitInfo) (topo : WindowsBootTopology) (findings : List Finding)
      (d : Decision)
      → load_latest_verified store s q.case_id ≡ ok (snap, info)
      → validate_acquisition_request_id q.request_id ≡ ok tt
      → is_advisor (default_actor q.actor deterministic_analyzer) ≡ false
      → Analysed decode sha256_hex q snap topo findings
      → Decided q snap info topo findings d
      → carried_out store decode sha256_hex r s (ok d) ≡ (s', ok res)
      → Completed store decode sha256_hex r s s' q res
  unfolding carried_out analysis_request_of
  carried_out-Completed r s s' q res snap info topo findings (replay result) hl hn ha hf
        (same, seen, kept) h =
      let is_res : result ≡ res = ok-injective result res (ap (λ x. x.1) h) in
      subst (Completed store decode sha256_hex r s s' q) (sym same ∙ is_res) (record {
        snapshot = snap;
        info = info;
        loaded = hl;
        named = hn;
        not_advisor = ha;
        analysed = hf;
        ended = inl (sym (ap (λ x. x.0) h), refl, seen, kept);
      })
  carried_out-Completed r s s' q res snap info topo findings (commit request t) hl hn ha hf
        (same, same_topo, given, new) h =
      let (hc, hfs, ht, hi) =
        committed-ok request.findings t (commit_analysis store r request s) s' res h in
      let found : res.findings ≡ findings =
        hfs ∙ ap (λ (x : CommitAnalysisRequest). x.findings) same in
      let asked : request ≡ analysis_request_of q res.findings =
        same ∙ ap (analysis_request_of q) (sym found) in
      record {
        snapshot = snap;
        info = info;
        loaded = hl;
        named = hn;
        not_advisor = ha;
        analysed =
            subst
              (λ (p : WindowsBootTopology × List Finding).
                Analysed decode sha256_hex q snap p.0 p.1)
              (λ i. (sym (ht ∙ same_topo) i, sym found i)) hf;
        ended = inr (sym (ap (λ x. commit_analysis store r x s) asked) ∙ hc, hi, given, new);
      }

  -- A boot doctor's analysis that passes was not asked for by the advisor. Its topology is the decoded
  -- facts of evidence of the case's latest revision, with the id that the request names, if any; its
  -- findings, at least one, are those of the boot doctor on it: valid, of the case, and about evidence
  -- and targets of the revision. Either the request had an analysis event already, the same findings
  -- stand in the case, and nothing is written; or it had none, and the findings are committed as an
  -- analysis on the commit that the request expects.
  pub commit_boot_doctor_analysis-Completed :
      (r : Readings) (q : BootAnalysisRequest) (s s' : S) (res : BootAnalysisResult)
      → commit_boot_doctor_analysis store decode sha256_hex r q s ≡ (s', ok res)
      → Completed store decode sha256_hex r s s' q res
  unfolding commit_boot_doctor_analysis decided_command carried_out
  commit_boot_doctor_analysis-Completed r q s s' res h =
      elim (Result-cases (decided_command store decode sha256_hex s q)) [
        | inr (e, he) ↦
            ok≢err e res (ap (λ x. x.1) (sym (ap (carried_out store decode sha256_hex r s) he) ∙ h))
        | inl (d, hd) ↦
            let (h1, h2) = >>-eq-ok _ _ hd in
            let (h3, h4) = >>-eq-ok _ _ h2 in
            let ((snap, info), h5, h6) = >>=-eq-ok (load_latest_verified store s q.case_id) _ h4 in
            let ((topo, findings), h7, h8) =
              >>=-eq-ok (analyzed_findings decode sha256_hex q snap) _ h6 in
            carried_out-Completed r s s' q res snap info topo findings d h5 h3
              (not-true _ (guard-eq-ok _ _ h1))
              (analyzed_findings-Analysed decode sha256_hex q snap topo findings h7)
              (decide-Decided q snap info topo findings d h8)
              (sym (ap (carried_out store decode sha256_hex r s) hd) ∙ h)
      ]
