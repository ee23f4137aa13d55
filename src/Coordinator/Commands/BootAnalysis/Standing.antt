-- ===== src/Coordinator/Commands/BootAnalysis/Standing.antt =====
-- What a boot doctor's analysis that was committed leaves for a repetition of its request,
-- internal/recovery/coordinator/bootdoctor.go on the case store of internal/recovery/casestore.
use effexor_win_doctor.Prelude.{
  String, ◌≡◌, refl, ap, ap₂, sym, ◌∙◌, inl, inr, true, false, not, ◌&&◌, ◌||◌, ◌==◌, Option, none,
  List, [], ◌∷◌, ◌++◌, ok, >>-eq-ok, >>=-eq-ok, ok-injective, if_cases,
}
use effexor_win_doctor.Domain.Documents.{Target}
use effexor_win_doctor.Domain.Events.{CoordinatorEvent, analysis_committed, deterministic_analyzer}
use effexor_win_doctor.Domain.Evidence.{EvidenceBundle, Finding}
use effexor_win_doctor.Domain.Topology.{WindowsBootTopology}
use effexor_win_doctor.BootDoctor.Analyze.{Input}
use effexor_win_doctor.BootDoctor.Analyze.Grounded.{AllGrounded}
use effexor_win_doctor.CaseStore.Snapshot.{Snapshot}
use effexor_win_doctor.CaseStore.Snapshot.Validation.Parts.{validate-own_event}
use effexor_win_doctor.CaseStore.Types.{CommitInfo}
use effexor_win_doctor.CaseStore.Chain.{Hashes, info_of}
use effexor_win_doctor.Coordinator.{Readings, CommitAnalysisRequest, view_from}
use effexor_win_doctor.Coordinator.Access.{load_latest_verified}
use effexor_win_doctor.Coordinator.Acquire.RequestId.{validate_acquisition_request_id}
use effexor_win_doctor.Coordinator.State.{default_actor}
use effexor_win_doctor.Coordinator.ChainStore.{Chains, chain_store}
use effexor_win_doctor.Coordinator.ChainStore.Reads.{
  commit-Readable, commit-written, load_latest_verified-Readable, load_latest_verified-case_id,
}
use effexor_win_doctor.Coordinator.Merge.{merge_findings_append_only}
use effexor_win_doctor.Coordinator.Commands.{active_plan}
use effexor_win_doctor.Coordinator.Commands.Advance.{Advanced, advance-Advanced}
use effexor_win_doctor.Coordinator.Commands.Analysis.{
  analysis_fields, filled, next_analysis, commit_analysis,
}
use effexor_win_doctor.Coordinator.Commands.Concurrency.{written_on, run_command-Passed}
use effexor_win_doctor.Coordinator.Commands.BootAnalysis.Held.{merge-held, was_committed-snoc}
use effexor_win_doctor.Coordinator.Commands.BootAnalysis.Committed.{
  commit_boot_doctor_analysis-Completed,
}
use effexor_win_doctor.Coordinator.Commands.BootAnalysis.{
  BootAnalysisRequest, BootAnalysisResult, is_advisor, is_analysis, was_committed,
  findings_subset_equal, select_topology_evidence, first_non_empty, analysis_request_of,
  analyzed_findings, commit_boot_doctor_analysis,
}

-- An analysis reads the evidence and the targets, and nothing else of a revision.
analyzed_findings-same :
    (decode : String → Option WindowsBootTopology) (sha : String → String) (q : BootAnalysisRequest)
    (a b : Snapshot)
    → a.evidence_bundles ≡ b.evidence_bundles
    → a.targets ≡ b.targets
    → analyzed_findings decode sha q a ≡ analyzed_findings decode sha q b
unfolding analyzed_findings select_topology_evidence
analyzed_findings-same decode sha q a b evidence targets =
    ap₂
      (λ (es : List EvidenceBundle) (ts : List Target).
        analyzed_findings decode sha q (record a { evidence_bundles = es; targets = ts }))
      evidence targets

-- Findings of the case are not filled in.
filled-own :
    (i : Input) (findings : List Finding)
    → AllGrounded i findings
    → filled i.case_id findings ≡ findings
unfolding filled
filled-own i [] g = refl
filled-own i (f ∷ fs) (g, gs) =
    ap₂ (λ x xs. x ∷ xs)
      (if_cases (λ x. x ≡ f) (f.case_id == "") (record f { case_id = i.case_id }) f
        (λ _. λ j. record f { case_id = sym g.own j }) (λ _. refl))
      (filled-own i fs gs)

-- What the commit of an analysis makes of a revision.
next_analysis-merged :
    (r : Readings) (q : CommitAnalysisRequest) (snap : Snapshot) (info : CommitInfo)
    (after : Snapshot)
    → next_analysis r q snap info ≡ ok after
    → (merged : List Finding) × (merge_findings_append_only snap.findings
          (filled q.case_id q.findings)
        ≡ ok merged)
      × Advanced
          (analysis_fields q snap info)
          (active_plan snap)
          (record snap { findings = merged })
          after
unfolding next_analysis
next_analysis-merged r q snap info after h =
    let (h1, h2) = >>-eq-ok _ _ h in
    let (merged, hm, h3) =
      >>=-eq-ok (merge_findings_append_only snap.findings (filled q.case_id q.findings)) _ h2 in
    (
      merged,
      hm,
      advance-Advanced r (analysis_fields q snap info) none (active_plan snap) _
          (record snap { findings = merged }) after h3,
    )

-- What the first request leaves: a revision with its findings and its event, which a read returns.
pub record Standing (h : Hashes) (decode : String → Option WindowsBootTopology)
    (sha : String → String) (at : String) (m' : Chains) (q : BootAnalysisRequest)
    (res : BootAnalysisResult) : Type 0 where
  pub snapshot : Snapshot
  pub now : CommitInfo
  pub not_advisor : is_advisor (default_actor q.actor deterministic_analyzer) ≡ false
  pub named : validate_acquisition_request_id q.request_id ≡ ok tt
  pub given : not (q.expected_commit_id == "") ≡ true
  pub loaded : load_latest_verified (chain_store h at) m' q.case_id ≡ ok (snapshot, now)
  pub shown : now.commit_id ≡ res.case_view.commit_info.commit_id
  pub analysis : analyzed_findings decode sha q snapshot ≡ ok (res.topology, res.findings)
  pub held : findings_subset_equal snapshot.findings res.findings ≡ true
  pub recorded :
      was_committed snapshot.coordinator_events q.request_id
      ≡ (first_non_empty q.command_id q.request_id == q.request_id)

-- After the commit the request has an analysis event if the event is recorded under its id.
recorded_in :
    (q : BootAnalysisRequest) (before after : Snapshot) (e : CoordinatorEvent)
    → after.coordinator_events ≡ before.coordinator_events ++ e ∷ []
    → e.event_type ≡ analysis_committed
    → e.command_id ≡ first_non_empty q.command_id q.request_id
    → was_committed before.coordinator_events q.request_id ≡ false
    → was_committed after.coordinator_events q.request_id
      ≡ (first_non_empty q.command_id q.request_id == q.request_id)
unfolding is_analysis
recorded_in q before after e audited of_type commanded first =
    ap (λ es. was_committed es q.request_id) audited
    ∙ (was_committed-snoc before.coordinator_events e q.request_id
        ∙ (λ i. first i || (is_analysis (of_type i) && commanded i == q.request_id)))

pub commit_boot_doctor_analysis-Standing :
    (h : Hashes) (decode : String → Option WindowsBootTopology) (sha : String → String)
    (at at' : String) (r : Readings) (m m' : Chains) (q : BootAnalysisRequest)
    (res : BootAnalysisResult)
    → commit_boot_doctor_analysis (chain_store h at) decode sha r q m ≡ (m', ok res)
    → res.idempotent ≡ false
    → res.case_view.commit_info.idempotent ≡ false
    → Standing h decode sha at' m' q res
unfolding commit_analysis analysis_request_of view_from info_of
commit_boot_doctor_analysis-Standing h decode sha at at' r m m' q res hr new written =
    let store = chain_store h at in
    let c = commit_boot_doctor_analysis-Completed store decode sha r q m m' res hr in
    let request = analysis_request_of q res.findings in
    elim c.ended [
      | inl (_, again, _, _) ↦ absurd (let z : ⊥ = cc in z)
      | inr (hc, _, given, first) ↦
          let p =
            run_command-Passed store m m' q.case_id q.expected_commit_id (next_analysis r request)
              res.case_view hc in
          let same : p.latest ≡ c.snapshot =
            ap (λ (x : Snapshot × CommitInfo). x.0) (ok-injective _ _ (sym p.loaded ∙ c.loaded)) in
          let (merged, hm, adv) = next_analysis-merged r request p.latest p.info p.made p.checked in
          let mine : p.made.manifest.case_id ≡ q.case_id =
            sym (
              validate-own_event p.made p.latest.coordinator_events adv.event adv.audited adv.valid)
            ∙ adv.of_case in
          let w = written_on store p.made p.info.commit_id in
          let rd = commit-Readable h at q.case_id m m' w p.done p.committed mine in
          let is_made =
            commit-written h at q.case_id m m' w p.done p.committed mine
              (sym (ap (λ v. v.commit_info.idempotent) p.shown) ∙ written) rd in
          let (hid, hne) =
            load_latest_verified-case_id h at q.case_id m (c.snapshot, c.info) c.loaded in
          let kept = filled-own _ res.findings c.analysed.grounded in
          record {
            snapshot = p.made;
            now = info_of false rd.head;
            not_advisor = c.not_advisor;
            named = c.named;
            given = given;
            loaded =
                load_latest_verified-Readable h at' q.case_id p.done.commit_id m' hid hne rd
                ∙ ap (λ s. ok (s, info_of false rd.head)) is_made;
            shown = rd.named ∙ sym (ap (λ v. v.commit_info.commit_id) p.shown);
            analysis =
                analyzed_findings-same decode sha q p.made c.snapshot
                  (adv.same_evidence ∙ ap (λ s. s.evidence_bundles) same)
                  (adv.same_targets ∙ ap (λ s. s.targets) same)
                ∙ c.analysed.analysis;
            held =
                ap₂ findings_subset_equal adv.same_findings (sym kept)
                ∙ merge-held p.latest.findings (filled q.case_id res.findings) merged hm;
            recorded =
                recorded_in q p.latest p.made adv.event adv.audited adv.of_type adv.commanded
                  (ap (λ s. was_committed s.coordinator_events q.request_id) same ∙ first);
          }
    ]
