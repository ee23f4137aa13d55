-- ===== src/Coordinator/Commands/Plan.antt =====
-- `CommitPlan` of internal/recovery/coordinator/commit_analysis.go.
use effexor_win_doctor.Prelude.{
  String, ◌||◌, not, none, ◌==◌, if◌then◌else◌, is_empty, elems, length, Result, guard, ◌>>=◌, ◌>>◌,
}
use effexor_win_doctor.Domain.Workflow.{plan_proposed}
use effexor_win_doctor.Domain.Events.{plan_committed, system}
use effexor_win_doctor.Domain.Plans.{RepairPlan}
use effexor_win_doctor.CaseStore.Snapshot.{Snapshot}
use effexor_win_doctor.CaseStore.Types.{CommitInfo}
use effexor_win_doctor.Coordinator.{
  CommandError, invalid_argument, Readings, CommitPlanRequest, CaseView, Store, current_state,
}
use effexor_win_doctor.Coordinator.State.{EventFields, default_actor, default_reason, next_revision}
use effexor_win_doctor.Coordinator.Refs.{plan_refs}
use effexor_win_doctor.Coordinator.Merge.{merge_plans_immutable}
use effexor_win_doctor.Coordinator.Commands.{check_transition, advance, run_command}

unfoldable pub validate_plan_for_pr17 : RepairPlan → String → Result CommandError (Unit {0})
validate_plan_for_pr17 plan case_id = do
  guard (plan.case_id == "" || plan.case_id == case_id) (invalid_argument "plan.case_id mismatch")
  guard (plan.status == "draft")
      (invalid_argument "PR #17 CommitPlan allows only status=draft (got %q)")
  guard (not (is_empty (elems plan.finding_refs)))
      (invalid_argument "plan requires at least one finding_ref")
  guard (not (is_empty (elems plan.steps))) (invalid_argument "plan requires at least one step")

-- A plan without a case takes the request's.
unfoldable pub filled_plan : String → RepairPlan → RepairPlan
filled_plan case_id plan = if plan.case_id == "" then record plan { case_id = case_id } else plan

-- The event that the command writes on a snapshot.
abbrev pub plan_fields : CommitPlanRequest → Snapshot → CommitInfo → EventFields
plan_fields q snap info = record {
  case_id = q.case_id;
  event_type = plan_committed;
  actor = default_actor q.actor system;
  prev = current_state snap;
  next = plan_proposed;
  expected_commit_id = info.commit_id;
  reason_code = default_reason q.reason_code "plan_committed";
  command_id = q.command_id;
  revision = next_revision snap;
}

unfoldable pub next_plan :
    Readings → CommitPlanRequest → Snapshot → CommitInfo → Result CommandError Snapshot
next_plan r q snap info =
    let plan = filled_plan q.case_id q.plan in
    validate_plan_for_pr17 plan q.case_id
    >> (merge_plans_immutable snap.repair_plans plan >>= λ merged.
        check_transition q.case_id (current_state snap) plan_proposed (default_actor q.actor system)
          (length snap.findings) (length merged)
        >> advance r (plan_fields q snap info) none plan.plan_id (λ moved. plan_refs q.case_id plan)
            (record snap { repair_plans = merged }))

unfoldable pub commit_plan :
    {S : Type 0} → Store S → Readings → CommitPlanRequest → S → S × Result CommandError CaseView
commit_plan store r q s = run_command store s q.case_id q.expected_commit_id (next_plan r q)
