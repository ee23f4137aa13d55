-- ===== src/Coordinator/Commands/History.antt =====
-- What each command does to a case's history.
use effexor_win_doctor.Prelude.{
  ℕ, String, ◌≡◌, ◌≢◌, true, ◌==◌, arith, none, List, ◌++◌, ◌∷◌, [], length, ok, >>=-eq-ok,
  >>-eq-ok, map_err-eq-ok, ◌⊎◌,
}
use effexor_win_doctor.Domain.Workflow.{WorkflowStateName, analyzed, plan_proposed}
use effexor_win_doctor.Domain.Events.{ActorType, deterministic_analyzer, system, technician}
use effexor_win_doctor.Domain.Evidence.{Finding}
use effexor_win_doctor.Domain.Plans.{RepairPlan}
use effexor_win_doctor.CaseStore.Snapshot.{Snapshot}
use effexor_win_doctor.CaseStore.Types.{CommitInfo}
use effexor_win_doctor.Coordinator.{
  Readings, CommitAnalysisRequest, CommitPlanRequest, FailCaseRequest, CaseRequest, current_state,
}
use effexor_win_doctor.Coordinator.State.{default_actor}
use effexor_win_doctor.Coordinator.Merge.{merge_findings_append_only, merge_plans_immutable}
use effexor_win_doctor.Coordinator.Merge.AppendOnly.{
  Extends, merge-Extends, merge_plans_immutable-cases,
}
use effexor_win_doctor.Coordinator.Transitions.Permitted.{
  Closed, failed, cancelled, closed, Permitted, validate_transition-iff-Permitted,
}
use effexor_win_doctor.Coordinator.Commands.{check_transition, active_plan}
use effexor_win_doctor.Coordinator.Commands.Advance.{Advanced, advance-Advanced}
use effexor_win_doctor.Coordinator.Commands.Analysis.{filled, analysis_fields, next_analysis}
use effexor_win_doctor.Coordinator.Commands.Plan.{
  validate_plan_for_pr17, filled_plan, plan_fields, next_plan,
}
use effexor_win_doctor.Coordinator.Commands.Closing.{
  failure_fields, cancellation_fields, next_failure, next_cancellation,
}

check_transition-Permitted :
    (id : String) (s t : WorkflowStateName) (a : ActorType) (f p : ℕ)
    → check_transition id s t a f p ≡ ok tt
    → Permitted s t a f p
unfolding check_transition
check_transition-Permitted id s t a f p h =
    (validate_transition-iff-Permitted s t a f p).0 (map_err-eq-ok _ _ tt h)

plan-draft :
    (plan : RepairPlan) (case_id : String)
    → validate_plan_for_pr17 plan case_id ≡ ok tt
    → plan.status == "draft" ≡ true
unfolding validate_plan_for_pr17
plan-draft plan case_id h = ground arith

pub analysis_history :
    (r : Readings) (q : CommitAnalysisRequest) (snap : Snapshot) (info : CommitInfo)
    (after : Snapshot)
    → next_analysis r q snap info ≡ ok after
    → Permitted
        (current_state snap)
        analyzed
        (default_actor q.actor deterministic_analyzer)
        (length q.findings)
        (length snap.repair_plans)
      × ((merged : List Finding) × Extends snap.findings merged
          × Advanced
              (analysis_fields q snap info)
              (active_plan snap)
              (record snap { findings = merged })
              after)
unfolding next_analysis
analysis_history r q snap info after h =
    let (h1, h2) = >>-eq-ok _ _ h in
    let (merged, hm, h3) =
      >>=-eq-ok (merge_findings_append_only snap.findings (filled q.case_id q.findings)) _ h2 in
    (
      check_transition-Permitted q.case_id _ _ _ _ _ h1,
      (
        merged,
        merge-Extends snap.findings (filled q.case_id q.findings) merged hm,
        advance-Advanced r (analysis_fields q snap info) none (active_plan snap) _
            (record snap { findings = merged }) after h3,
      ),
    )

pub plan_history :
    (r : Readings) (q : CommitPlanRequest) (snap : Snapshot) (info : CommitInfo) (after : Snapshot)
    → next_plan r q snap info ≡ ok after
    → ((filled_plan q.case_id q.plan).status == "draft" ≡ true)
      × ((merged : List RepairPlan) × ((merged ≡ snap.repair_plans)
            ⊎ (merged ≡ snap.repair_plans ++ filled_plan q.case_id q.plan ∷ []))
          × Permitted
              (current_state snap)
              plan_proposed
              (default_actor q.actor system)
              (length snap.findings)
              (length merged)
          × Advanced
              (plan_fields q snap info)
              (filled_plan q.case_id q.plan).plan_id
              (record snap { repair_plans = merged })
              after)
unfolding next_plan
plan_history r q snap info after h =
    let plan = filled_plan q.case_id q.plan in
    let (h1, h2) = >>-eq-ok _ _ h in
    let (merged, hm, h3) = >>=-eq-ok (merge_plans_immutable snap.repair_plans plan) _ h2 in
    let (h4, h5) = >>-eq-ok _ _ h3 in
    (
      plan-draft plan q.case_id h1,
      (
        merged,
        merge_plans_immutable-cases snap.repair_plans plan merged hm,
        check_transition-Permitted q.case_id _ _ _ _ _ h4,
        advance-Advanced r (plan_fields q snap info) none plan.plan_id _
            (record snap { repair_plans = merged }) after h5,
      ),
    )

pub failure_history :
    (r : Readings) (q : FailCaseRequest) (snap : Snapshot) (info : CommitInfo) (after : Snapshot)
    → next_failure r q snap info ≡ ok after
    → Permitted
        (current_state snap)
        WorkflowStateName.failed
        (default_actor q.actor technician)
        (length snap.findings)
        (length snap.repair_plans)
      × Advanced (failure_fields q snap info) (active_plan snap) snap after
unfolding next_failure
failure_history r q snap info after h =
    let (h1, h2) = >>-eq-ok _ _ h in
    (
      check_transition-Permitted q.case_id _ _ _ _ _ h1,
      advance-Advanced r (failure_fields q snap info) _ (active_plan snap) _ snap after h2,
    )

pub cancellation_history :
    (r : Readings) (q : CaseRequest) (snap : Snapshot) (info : CommitInfo) (after : Snapshot)
    → next_cancellation r q snap info ≡ ok after
    → Permitted
        (current_state snap)
        WorkflowStateName.cancelled
        (default_actor q.actor technician)
        (length snap.findings)
        (length snap.repair_plans)
      × Advanced (cancellation_fields q snap info) (active_plan snap) snap after
unfolding next_cancellation
cancellation_history r q snap info after h =
    let (h1, h2) = >>-eq-ok _ _ h in
    (
      check_transition-Permitted q.case_id _ _ _ _ _ h1,
      advance-Advanced r (cancellation_fields q snap info) _ (active_plan snap) _ snap after h2,
    )

Closed-refused :
    (s t : WorkflowStateName) (a : ActorType) (f p : ℕ) → Closed s → Permitted s t a f p → ⊥
Closed-refused s t a f p failed (closed o _ _) = elim o [ ]
Closed-refused s t a f p cancelled (closed o _ _) = elim o [ ]

-- A failed or a cancelled case takes no analysis, no plan, no failure and no cancellation.
pub Closed-takes_no_command :
    (r : Readings) (snap : Snapshot) (info : CommitInfo) (after : Snapshot)
    (analysis : CommitAnalysisRequest) (plan : CommitPlanRequest) (failure : FailCaseRequest)
    (cancellation : CaseRequest)
    → Closed (current_state snap)
    → (next_analysis r analysis snap info ≢ ok after)
      × (next_plan r plan snap info ≢ ok after)
      × (next_failure r failure snap info ≢ ok after)
      × (next_cancellation r cancellation snap info ≢ ok after)
Closed-takes_no_command r snap info after analysis plan failure cancellation c = (
  (λ h. Closed-refused _ _ _ _ _ c (analysis_history r analysis snap info after h).0),
  (λ h.
      let (_, (_, _, ok_plan, _)) = plan_history r plan snap info after h in
      Closed-refused _ _ _ _ _ c ok_plan),
  (λ h. Closed-refused _ _ _ _ _ c (failure_history r failure snap info after h).0),
  (λ h. Closed-refused _ _ _ _ _ c (cancellation_history r cancellation snap info after h).0),
)
