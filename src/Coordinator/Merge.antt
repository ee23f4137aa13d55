-- ===== src/Coordinator/Merge.antt =====
-- Findings and plans that a command adds, internal/recovery/coordinator: findings.go and plans.go.
-- Two documents have the same canonical JSON exactly when their fields are the same; a nil slice
-- and an empty one differ (`null` and `[]`).
pub mod AppendOnly
pub mod Reflexive
use effexor_win_doctor.Prelude.{
  String, Bool, true, false, Option, none, some, List, [], ◌∷◌, ◌++◌, ◌&&◌, not, ◌==◌,
  if◌then◌else◌, Result, ok, guard, ◌>>◌,
}
use effexor_win_doctor.Domain.Evidence.{Finding}
use effexor_win_doctor.Domain.Plans.{PlanStep, RepairPlan}
use effexor_win_doctor.CaseStore.Snapshot.Sets.{same_strings}
use effexor_win_doctor.Coordinator.{CommandError, invalid_argument}

unfoldable pub same_slice : Option (List String) → Option (List String) → Bool
unfolding same_strings
same_slice none none = true
same_slice none (some ys) = false
same_slice (some xs) none = false
same_slice (some xs) (some ys) = same_strings xs ys

unfoldable pub same_bool : Bool → Bool → Bool
same_bool true b = b
same_bool false b = not b

unfoldable pub findings_canonically_equal : Finding → Finding → Bool
unfolding same_slice same_bool
findings_canonically_equal a b =
    a.schema_name == b.schema_name
    && a.schema_version == b.schema_version
    && a.finding_id == b.finding_id
    && a.case_id == b.case_id
    && a.severity == b.severity
    && a.confidence == b.confidence
    && a.title == b.title
    && a.rationale == b.rationale
    && same_slice a.evidence_refs b.evidence_refs
    && same_slice a.affected_target_ids b.affected_target_ids
    && same_slice a.recommended_workflows b.recommended_workflows
    && same_slice a.limitations b.limitations
    && same_bool a.insufficient_evidence b.insufficient_evidence

same_step : PlanStep → PlanStep → Bool
unfolding same_slice same_bool
same_step a b =
    a.step_id == b.step_id
    && a.operation_id == b.operation_id
    && a.operation_version == b.operation_version
    && a.target_id == b.target_id
    && same_slice a.depends_on b.depends_on
    && same_bool a.approval_required b.approval_required
    && same_bool a.backup_required b.backup_required

same_step_list : List PlanStep → List PlanStep → Bool
unfolding same_step
same_step_list [] [] = true
same_step_list [] (t ∷ ts) = false
same_step_list (s ∷ ss) [] = false
same_step_list (s ∷ ss) (t ∷ ts) = same_step s t && same_step_list ss ts

same_steps : Option (List PlanStep) → Option (List PlanStep) → Bool
unfolding same_step_list
same_steps none none = true
same_steps none (some ts) = false
same_steps (some ss) none = false
same_steps (some ss) (some ts) = same_step_list ss ts

unfoldable pub plans_canonically_equal : RepairPlan → RepairPlan → Bool
unfolding same_slice same_steps
plans_canonically_equal a b =
    a.schema_name == b.schema_name
    && a.schema_version == b.schema_version
    && a.plan_id == b.plan_id
    && a.case_id == b.case_id
    && same_slice a.finding_refs b.finding_refs
    && same_steps a.steps b.steps
    && a.risk_summary == b.risk_summary
    && same_slice a.backup_requirements b.backup_requirements
    && same_slice a.approval_requirements b.approval_requirements
    && a.status == b.status

-- `byID` of the findings: of two with one id the later one.
unfoldable pub last_by_id : List Finding → String → Option Finding → Option Finding
last_by_id [] id found = found
last_by_id (f ∷ fs) id found = last_by_id fs id (if f.finding_id == id then some f else found)

unfoldable pub merged_with :
    Option Finding
    → Finding
    → Result CommandError (List Finding)
    → Result CommandError (List Finding)
    → Result CommandError (List Finding)
merged_with none f dropped appended = appended
merged_with (some prev) f dropped appended =
    guard (findings_canonically_equal prev f)
      (invalid_argument "finding_id %q already exists with divergent content")
    >> dropped

-- The loop over the incoming findings; the map is that of the findings so far.
unfoldable pub merge_findings_append_only :
    List Finding → List Finding → Result CommandError (List Finding)
unfolding last_by_id merged_with
merge_findings_append_only out [] = ok out
merge_findings_append_only out (f ∷ incoming) =
    merged_with (last_by_id out f.finding_id none) f (merge_findings_append_only out incoming)
      (merge_findings_append_only (out ++ f ∷ []) incoming)

-- The loop over the existing plans.
merge_plan : List RepairPlan → List RepairPlan → RepairPlan → Result CommandError (List RepairPlan)
merge_plan all [] incoming = ok (all ++ incoming ∷ [])
merge_plan all (prev ∷ existing) incoming =
    let rest = merge_plan all existing incoming in
    if not (prev.plan_id == incoming.plan_id)
    then rest
    else guard (plans_canonically_equal prev incoming)
        (invalid_argument "plan_id %q already exists with divergent content")
      >> ok all

unfoldable pub merge_plans_immutable :
    List RepairPlan → RepairPlan → Result CommandError (List RepairPlan)
unfolding merge_plan
merge_plans_immutable existing incoming = merge_plan existing existing incoming
