-- ===== src/Coordinator/Commands/Concurrency.antt =====
-- Optimistic concurrency of the commands, over any case store.
use effexor_win_doctor.Prelude.{
  String, ◌≡◌, ap, sym, ◌∙◌, true, ◌==◌, Result, ok, err, >>=-eq-ok, >>-eq-ok, ok-injective,
  guard-eq-ok, Result-cases, ok≢err, inl, inr,
}
use effexor_win_doctor.CaseStore.Snapshot.{Snapshot}
use effexor_win_doctor.CaseStore.Types.{
  StoreError, CommitInfo, CommitRequest, case_snapshot, ParentExpectation,
}
use effexor_win_doctor.Coordinator.{CommandError, Store, CaseView, view_from}
use effexor_win_doctor.Coordinator.Access.{
  load_latest_verified, load_expected, commit_snapshot, viewed,
}
use effexor_win_doctor.Coordinator.Commands.{run_command, after_load, published}

module _ {S : Type 0} (store : Store S) where
  load_expected-current :
      (s : S) (id expected : String) (snap : Snapshot) (info : CommitInfo)
      → load_expected store s id expected ≡ ok (snap, info)
      → (load_latest_verified store s id ≡ ok (snap, info)) × (info.commit_id == expected ≡ true)
  unfolding load_expected
  load_expected-current s id expected snap info h =
      let (h1, h2) = >>-eq-ok _ _ h in
      let (loaded, hl, h3) = >>=-eq-ok (load_latest_verified store s id) _ h2 in
      let (h4, h5) = >>-eq-ok _ _ h3 in
      let same : loaded ≡ (snap, info) = ok-injective _ _ h5 in
      (hl ∙ ap ok same, ap (λ l. l.1.commit_id == expected) (sym same) ∙ guard-eq-ok _ _ h4)

  -- What a snapshot's commit asks of the store.
  abbrev pub written_on : Snapshot → String → CommitRequest
  written_on snap head = record {
    snapshot = snap;
    reason = case_snapshot;
    parent_expectation = ParentExpectation.commit head;
  }

  pub viewed-ok :
      (snap : Snapshot) (head : String) (r : S × Result StoreError CommitInfo) (s' : S)
      (view : CaseView)
      → viewed store snap head r ≡ (s', ok view)
      → (info : CommitInfo) × (r ≡ (s', ok info)) × (view ≡ view_from snap info)
  unfolding viewed
  viewed-ok snap head (s, ok info) s' view h =
      (info, ap (λ p. (p.0, ok info)) h, sym (ok-injective _ view (ap (λ p. p.1) h)))
  viewed-ok snap head (s, err e) s' view h = ok≢err _ view (ap (λ p. p.1) h)

  -- The latest revision, verified; what a command made of it; and the commit of that.
  pub record Passed (s s' : S) (id expected : String)
      (next : Snapshot → CommitInfo → Result CommandError Snapshot) (view : CaseView) : Type 0 where
    pub latest : Snapshot
    pub made : Snapshot
    pub info : CommitInfo
    pub done : CommitInfo
    pub loaded : load_latest_verified store s id ≡ ok (latest, info)
    pub current : info.commit_id == expected ≡ true
    pub checked : next latest info ≡ ok made
    pub committed : store.commit s (written_on made info.commit_id) ≡ (s', ok done)
    pub shown : view ≡ view_from made done

  -- A command that passes was expected at the latest commit; the view that it returns is that of the
  -- snapshot which its checks made of the latest revision, and of the commit that the store made of it.
  pub run_command-Passed :
      (s s' : S) (id expected : String)
      (next : Snapshot → CommitInfo → Result CommandError Snapshot) (view : CaseView)
      → run_command store s id expected next ≡ (s', ok view)
      → Passed s s' id expected next view
  unfolding run_command commit_snapshot
  run_command-Passed s s' id expected next view h =
      elim (Result-cases (load_expected store s id expected)) [
        | inr (e, he) ↦ ok≢err e view (ap (λ p. p.1) (sym (ap (after_load store s next) he) ∙ h))
        | inl (loaded, hl) ↦
            let (snap, info) = loaded in
            let h1 = sym (ap (after_load store s next) hl) ∙ h in
            elim (Result-cases (next snap info)) [
              | inr (e, he) ↦
                  ok≢err e view
                    (ap (λ p. p.1) (sym (ap (published store s info.commit_id) he) ∙ h1))
              | inl (after, ha) ↦
                  let h2 = sym (ap (published store s info.commit_id) ha) ∙ h1 in
                  let (done, hd, hv) = viewed-ok after info.commit_id _ s' view h2 in
                  let (hl', hc) = load_expected-current s id expected snap info hl in
                  record {
                    latest = snap;
                    made = after;
                    info = info;
                    done = done;
                    loaded = hl';
                    current = hc;
                    checked = ha;
                    committed = hd;
                    shown = hv;
                  }
            ]
      ]
