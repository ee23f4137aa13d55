-- ===== src/Coordinator/Commands/Advance.antt =====
-- What a command changes in the snapshot that it writes.
use effexor_win_doctor.Prelude.{
  String, ◌≡◌, refl, true, false, Option, some, List, [], ◌∷◌, ◌++◌, ◌==◌, contains_string, arith,
  ok, err, map_err, ◌>>=◌, ok-injective, checked-eq-ok, >>=-eq-ok, >>-eq-ok, ==_refl, if_true,
  if_false, ap, ap₂, sym, ◌∙◌, Bool-cases, inl, inr,
}
use effexor_win_doctor.Domain.Workflow.{
  CaseState, case_state_for_workflow, case_state_for_workflow-compatible, CaseWorkflowState,
  WorkflowFailure, compatible_workflow_and_case_state,
}
use effexor_win_doctor.Domain.Events.{CoordinatorEvent}
use effexor_win_doctor.CaseStore.Snapshot.{Snapshot}
use effexor_win_doctor.CaseStore.Snapshot.Sets.{unique_ids}
use effexor_win_doctor.CaseStore.Snapshot.Validation.{validate}
use effexor_win_doctor.CaseStore.Snapshot.Validation.Parts.{validate-unique_events}
use effexor_win_doctor.Domain.Checks.{schema_version}
use effexor_win_doctor.Coordinator.{invalid_snapshot, Readings}
use effexor_win_doctor.Coordinator.State.{
  EventFields, event_of, new_audit_event, stamp_audit_event, append_event, set_workflow,
  monotonic_now, stamp_first, stamped,
}
use effexor_win_doctor.Coordinator.Commands.{advance, finish}

-- The last of a list without duplicates is none of those seen before it.
last_new :
    (format : String) (seen : List String) (es : List CoordinatorEvent) (e : CoordinatorEvent)
    → unique_ids format (λ e. e.event_id) seen (es ++ e ∷ []) ≡ ok tt
    → contains_string seen e.event_id ≡ false
unfolding unique_ids
last_new format seen [] e h = ground arith
last_new format seen (x ∷ es) e h =
    let (h1, h2) = >>-eq-ok _ _ h in
    let z : contains_string (x.event_id ∷ seen) e.event_id ≡ false =
      last_new format (x.event_id ∷ seen) es e h2 in
    ground arith

-- The event that is stamped is not an earlier one with the same id.
stamped_twice :
    (format : String) (seen refs : List String) (at : String) (x : CoordinatorEvent)
    (es : List CoordinatorEvent) (e : CoordinatorEvent)
    → (x.event_id == e.event_id) ≡ true
    → unique_ids format (λ e. e.event_id) seen (stamped refs at x ∷ es ++ e ∷ []) ≡ ok tt
    → ⊥
unfolding unique_ids
stamped_twice format seen refs at x es e same h =
    let (h1, h2) = >>-eq-ok _ _ h in
    let z : contains_string (x.event_id ∷ seen) e.event_id ≡ false =
      last_new format (x.event_id ∷ seen) es e h2 in
    ground arith

-- Stamping changes the appended event, and no event before it.
stamp_last :
    (format : String) (seen refs : List String) (at : String) (es : List CoordinatorEvent)
    (e : CoordinatorEvent)
    → unique_ids format (λ e. e.event_id) seen (stamp_first e.event_id refs at (es ++ e ∷ []))
      ≡ ok tt
    → stamp_first e.event_id refs at (es ++ e ∷ []) ≡ es ++ stamped refs at e ∷ []
unfolding stamp_first unique_ids
stamp_last format seen refs at [] e h = ground (arith, ==_refl e.event_id)
stamp_last format seen refs at (x ∷ es) e h =
    let id : CoordinatorEvent → String = λ e. e.event_id in
    let hit = stamped refs at x ∷ es ++ e ∷ [] in
    let rest = stamp_first e.event_id refs at (es ++ e ∷ []) in
    elim (Bool-cases (x.event_id == e.event_id)) [
      | inl same ↦ absurd (
          stamped_twice format seen refs at x es e same
            (ap (unique_ids format id seen) (sym (if_true _ hit (x ∷ rest) same)) ∙ h))
      | inr new ↦
          let skipped = if_false (x.event_id == e.event_id) hit (x ∷ rest) new in
          let (_, h') = >>-eq-ok _ _ (ap (unique_ids format id seen) (sym skipped) ∙ h) in
          skipped ∙ ap (λ es'. x ∷ es') (stamp_last format (x.event_id ∷ seen) refs at es e h')
    ]

-- The event and the workflow that a command leaves, with the documents that it keeps.
pub record Advanced (f : EventFields) (plan_id : String) (before after : Snapshot) : Type 0 where
  pub event : CoordinatorEvent
  pub workflow : CaseWorkflowState
  pub audited : after.coordinator_events ≡ before.coordinator_events ++ event ∷ []
  pub set : after.workflow_state ≡ some workflow
  pub of_type : event.event_type ≡ f.event_type
  pub by_actor : event.actor_type ≡ f.actor
  pub from : event.previous_state ≡ f.prev
  pub to : (event.next_state ≡ f.next) × (workflow.state ≡ f.next)
  pub numbered : (event.workflow_revision ≡ f.revision) × (workflow.revision ≡ f.revision)
  pub commanded : event.command_id ≡ f.command_id
  pub based_on : event.expected_commit_id ≡ f.expected_commit_id
  pub of_case : event.case_id ≡ f.case_id
  pub last : workflow.last_transition_id ≡ event.event_id
  pub active : workflow.active_plan_id ≡ plan_id
  pub matched :
      compatible_workflow_and_case_state workflow.state after.manifest.current_state ≡ true
  pub same_case : after.manifest.case_id ≡ before.manifest.case_id
  pub same_findings : after.findings ≡ before.findings
  pub same_plans : after.repair_plans ≡ before.repair_plans
  pub same_targets : after.targets ≡ before.targets
  pub same_evidence : after.evidence_bundles ≡ before.evidence_bundles
  pub valid : validate after ≡ ok tt

-- What `setWorkflow` gives when it gives something.
written :
    Readings
    → EventFields
    → Option WorkflowFailure
    → String
    → Snapshot
    → CoordinatorEvent
    → CaseWorkflowState
written r f failure plan_id before e = record {
  schema_name = "case-workflow-state";
  schema_version = schema_version;
  case_id = before.manifest.case_id;
  state = f.next;
  revision = f.revision;
  updated_at = monotonic_now r.workflow_time before;
  last_transition_id = e.event_id;
  active_plan_id = plan_id;
  active_execution_id = "";
  failure = failure;
}

moved_to :
    Readings
    → EventFields
    → Option WorkflowFailure
    → String
    → Snapshot
    → CoordinatorEvent
    → CaseState
    → Snapshot
unfolding written
moved_to r f failure plan_id before e cs = record before {
  manifest = record before.manifest {
    updated_at = monotonic_now r.workflow_time before;
    current_state = cs;
  };
  workflow_state = some (written r f failure plan_id before e);
  coordinator_events = before.coordinator_events ++ e ∷ [];
}

set_workflow-eq :
    (r : Readings) (f : EventFields) (failure : Option WorkflowFailure) (plan_id : String)
    (before moved : Snapshot) (e : CoordinatorEvent)
    → map_err invalid_snapshot (
        set_workflow r.workflow_time
          (append_event before e)
          f.next
          e.event_id
          f.revision
          failure
          plan_id)
      ≡ ok moved
    → (cs : CaseState) × (case_state_for_workflow f.next ≡ ok cs)
      × (moved ≡ moved_to r f failure plan_id before e cs)
unfolding set_workflow append_event moved_to monotonic_now
set_workflow-eq r f failure plan_id before moved e h =
    elim (case_state_for_workflow f.next)
        as (λ c.
          map_err invalid_snapshot (c >>= λ cs. ok (moved_to r f failure plan_id before e cs))
            ≡ ok moved
          → (cs : CaseState) × (c ≡ ok cs) × (moved ≡ moved_to r f failure plan_id before e cs)) [
            | ok cs ↦ λ h'. (cs, refl, ok-injective _ _ (sym h'))
            | err x ↦ λ h'. absurd (let z : ⊥ = cc in z)
          ]
      h

finish-Advanced :
    (r : Readings) (f : EventFields) (failure : Option WorkflowFailure) (plan_id : String)
    (refs : Snapshot → List String) (before after : Snapshot) (id : String) (cs : CaseState)
    → case_state_for_workflow f.next ≡ ok cs
    → finish (event_of r f id) refs (moved_to r f failure plan_id before (event_of r f id) cs)
      ≡ ok after
    → Advanced f plan_id before after
unfolding finish moved_to stamp_audit_event
finish-Advanced r f failure plan_id refs before after id cs hc h =
    let e = event_of r f id in
    let moved = moved_to r f failure plan_id before e cs in
    let at = moved.manifest.updated_at in
    let stamped_snapshot = stamp_audit_event moved id (refs moved) at in
    let (hv, same) =
      checked-eq-ok invalid_snapshot (validate stamped_snapshot) stamped_snapshot after h in
    let events =
      stamp_last "duplicate coordinator event_id %q" [] (refs moved) at before.coordinator_events e
        (validate-unique_events stamped_snapshot hv) in
    record {
      event = stamped (refs moved) at e;
      workflow = written r f failure plan_id before e;
      audited = ap (λ s. s.coordinator_events) same ∙ events;
      set = ap (λ s. s.workflow_state) same;
      of_type = refl;
      by_actor = refl;
      from = refl;
      to = (refl, refl);
      numbered = (refl, refl);
      commanded = refl;
      based_on = refl;
      of_case = refl;
      last = refl;
      active = refl;
      matched =
          ap (λ s. compatible_workflow_and_case_state f.next s.manifest.current_state) same
          ∙ case_state_for_workflow-compatible f.next cs hc;
      same_case = ap (λ s. s.manifest.case_id) same;
      same_findings = ap (λ s. s.findings) same;
      same_plans = ap (λ s. s.repair_plans) same;
      same_targets = ap (λ s. s.targets) same;
      same_evidence = ap (λ s. s.evidence_bundles) same;
      valid = ap validate same ∙ hv;
    }

-- A command that passes appends one event, moves the workflow with it, and keeps the rest.
pub advance-Advanced :
    (r : Readings) (f : EventFields) (failure : Option WorkflowFailure) (plan_id : String)
    (refs : Snapshot → List String) (before after : Snapshot)
    → advance r f failure plan_id refs before ≡ ok after
    → Advanced f plan_id before after
unfolding advance new_audit_event
advance-Advanced r f failure plan_id refs before after h =
    let (e, he, h1) = >>=-eq-ok (new_audit_event r f) _ h in
    let (id, hid, he') = >>=-eq-ok r.event_id (λ id. ok (event_of r f id)) he in
    let (moved, hm, h2) =
      >>=-eq-ok
        (map_err invalid_snapshot (
          set_workflow r.workflow_time (append_event before e) f.next e.event_id f.revision failure
            plan_id))
        (finish e refs) h1 in
    let (cs, hc, same) = set_workflow-eq r f failure plan_id before moved e hm in
    let event = ok-injective (event_of r f id) e he' in
    finish-Advanced r f failure plan_id refs before after id cs hc (
      ap₂ (λ e' m. finish e' refs m) event
        (ap (λ e'. moved_to r f failure plan_id before e' cs) event ∙ sym same)
      ∙ h2)
