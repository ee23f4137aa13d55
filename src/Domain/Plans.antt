-- ===== src/Domain/Plans.antt =====
-- Repair plans, internal/recovery/domain/repair_plan.go.
pub mod Order
use effexor_win_doctor.Prelude.{
  ℕ, String, ◌+◌, Bool, Option, none, some, List, [], ◌∷◌, not, leb, ◌==◌, if◌then◌else◌, is_some,
  elems, ok, err, guard, map_err, ◌>>◌, itoa, contains_string,
}
use effexor_win_doctor.Domain.Errors.{errorf, wrap, Check}
use effexor_win_doctor.Domain.Patterns.{
  re_case_id, re_target_id, re_finding_id, re_plan_id, re_operation_id, re_semver,
}
use effexor_win_doctor.Domain.Checks.{
  require_enum, require_match, require_schema, require_present, require_each, require_non_empty,
}

pub record PlanStep : Type 0 where
  pub step_id : String
  pub operation_id : String
  pub operation_version : String
  pub target_id : String
  pub depends_on : Option (List String)
  pub approval_required : Bool
  pub backup_required : Bool

unfoldable pub validate_step : PlanStep → Check
unfolding require_non_empty require_match require_present re_operation_id re_semver re_target_id
validate_step s = do
  require_non_empty "step_id" s.step_id
  require_match "operation_id" s.operation_id re_operation_id
  guard (re_semver s.operation_version)
      (errorf "operation_version must be semver MAJOR.MINOR.PATCH" [])
  require_match "target_id" s.target_id re_target_id
  require_present "depends_on" s.depends_on

pub record RepairPlan : Type 0 where
  pub schema_name : String
  pub schema_version : String
  pub plan_id : String
  pub case_id : String
  pub finding_refs : Option (List String)
  pub steps : Option (List PlanStep)
  pub risk_summary : String
  pub backup_requirements : Option (List String)
  pub approval_requirements : Option (List String)
  pub status : String

abbrev plan_statuses : List String
plan_statuses =
    "draft" ∷ "ready" ∷ "awaiting_approval" ∷ "approved" ∷ "rejected" ∷ "superseded" ∷ "cancelled"
    ∷ []

-- `stepIndex`, the map from the ids of the steps seen so far to their positions.
abbrev pub StepIndex : Type 0
StepIndex = List (String × ℕ)

unfoldable pub index_of : StepIndex → String → Option ℕ
index_of [] id = none
index_of ((j, i) ∷ m) id = if j == id then some i else index_of m id

-- The first loop: each step is valid by itself, and its id is new.
unfoldable pub index_steps : ℕ → StepIndex → List PlanStep → Check
unfolding index_of
index_steps i seen [] = ok tt
index_steps i seen (s ∷ steps) =
    map_err (wrap "steps[%d]: %w" (itoa i ∷ [])) (validate_step s)
    >> (guard (not (is_some (index_of seen s.step_id)))
          (errorf "duplicate step_id %q" (s.step_id ∷ []))
        >> index_steps (i + 1) ((s.step_id, i) ∷ seen) steps)

-- The map that the first loop leaves.
unfoldable pub step_index : ℕ → StepIndex → List PlanStep → StepIndex
step_index i seen [] = seen
step_index i seen (s ∷ steps) = step_index (i + 1) ((s.step_id, i) ∷ seen) steps

check_position : String → ℕ → Option ℕ → Check
check_position dep i none =
    err (errorf "steps[%d] depends_on unknown step_id %q" (itoa i ∷ dep ∷ []))
check_position dep i (some j) =
    guard (not (leb i j))
      (errorf "steps[%d] depends_on %q must precede the current step" (itoa i ∷ dep ∷ []))

-- The inner loop over one step's dependencies.
unfoldable pub check_deps : StepIndex → ℕ → String → List String → List String → Check
unfolding index_of check_position
check_deps m i id seen [] = ok tt
check_deps m i id seen (dep ∷ deps) =
    guard (not (dep == id)) (errorf "steps[%d] depends_on must not reference itself" (itoa i ∷ []))
    >> (guard (not (contains_string seen dep))
          (errorf "steps[%d] depends_on contains duplicate %q" (itoa i ∷ dep ∷ []))
        >> (check_position dep i (index_of m dep) >> check_deps m i id (dep ∷ seen) deps))

-- The second loop.
unfoldable pub check_order : StepIndex → ℕ → List PlanStep → Check
unfolding check_deps
check_order m i [] = ok tt
check_order m i (s ∷ steps) =
    check_deps m i s.step_id [] (elems s.depends_on) >> check_order m (i + 1) steps

unfoldable pub validate_plan : RepairPlan → Check
validate_plan p = do
  require_schema p.schema_name p.schema_version "repair-plan"
  require_match "plan_id" p.plan_id re_plan_id
  require_match "case_id" p.case_id re_case_id
  require_present "finding_refs" p.finding_refs
  require_each "finding_refs" re_finding_id 0 (elems p.finding_refs)
  require_present "steps" p.steps
  index_steps 0 [] (elems p.steps)
  check_order (step_index 0 [] (elems p.steps)) 0 (elems p.steps)
  require_non_empty "risk_summary" p.risk_summary
  require_present "backup_requirements" p.backup_requirements
  require_present "approval_requirements" p.approval_requirements
  require_enum "status" p.status plan_statuses
