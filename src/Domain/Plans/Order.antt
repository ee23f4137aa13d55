-- ===== src/Domain/Plans/Order.antt =====
-- The dependency order of the steps of an accepted plan, repair_plan.go of internal/recovery/domain.
use effexor_win_doctor.Prelude.{
  ℕ, String, ◌+◌, ◌<◌, ◌≡◌, refl, true, false, Option, none, some, List, [], ◌∷◌, arith, is_some,
  elems, ok, >>-eq-ok, contains_string,
}
use effexor_win_doctor.Domain.Plans.{
  PlanStep, RepairPlan, StepIndex, index_of, step_index, index_steps, check_deps, check_order,
  check_position, validate_plan,
}

-- Every id of the first list stands in the second.
abbrev pub AllIn : List String → List String → Type 0
AllIn [] known = Unit
AllIn (id ∷ ids) known = (contains_string known id ≡ true) × AllIn ids known

-- Each step's id is new, and it depends only on steps that stand before it.
abbrev pub Ordered : List String → List PlanStep → Type 0
Ordered before [] = Unit
Ordered before (s ∷ steps) =
    (contains_string before s.step_id ≡ false)
    × AllIn (elems s.depends_on) before
    × Ordered (s.step_id ∷ before) steps

ids : StepIndex → List String
ids [] = []
ids ((j, i) ∷ m) = j ∷ ids m

index_of-ids : (m : StepIndex) (id : String) → contains_string (ids m) id ≡ is_some (index_of m id)
unfolding ids index_of
index_of-ids [] id = refl
index_of-ids ((j, i) ∷ m) id = ground (arith, index_of-ids m id)

-- A position below the current one was in the map before the rest of the steps.
step_index-below :
    (i : ℕ) (seen : StepIndex) (steps : List PlanStep) (dep : String) (j : ℕ)
    → index_of (step_index i seen steps) dep ≡ some j
    → j < i
    → index_of seen dep ≡ some j
unfolding step_index index_of
step_index-below i seen [] dep j h lt = h
step_index-below i seen (s ∷ steps) dep j h lt =
    ground (arith, step_index-below (i + 1) ((s.step_id, i) ∷ seen) steps dep j)

check_position-ok :
    (dep : String) (i : ℕ) (found : Option ℕ)
    → check_position dep i found ≡ ok tt
    → (j : ℕ) × (found ≡ some j) × (j < i)
unfolding check_position
check_position-ok dep i none h = absurd (let z : ⊥ = cc in z)
check_position-ok dep i (some j) h = (j, refl, ground arith)

check_deps-AllIn :
    (i : ℕ) (seen : StepIndex) (steps : List PlanStep) (id : String) (used deps : List String)
    → check_deps (step_index i seen steps) i id used deps ≡ ok tt
    → AllIn deps (ids seen)
unfolding check_deps
check_deps-AllIn i seen steps id used [] h = tt
check_deps-AllIn i seen steps id used (dep ∷ deps) h =
    let (a, h1) = >>-eq-ok _ _ h in
    let (b, h2) = >>-eq-ok _ _ h1 in
    let (c, h3) = >>-eq-ok _ _ h2 in
    let (j, found, lt) = check_position-ok dep i _ c in
    let before = step_index-below i seen steps dep j found lt in
    (ground (arith, index_of-ids seen dep), check_deps-AllIn i seen steps id (dep ∷ used) deps h3)

steps-Ordered :
    (i : ℕ) (seen : StepIndex) (steps : List PlanStep)
    → index_steps i seen steps ≡ ok tt
    → check_order (step_index i seen steps) i steps ≡ ok tt
    → Ordered (ids seen) steps
unfolding index_steps check_order step_index ids
steps-Ordered i seen [] h k = tt
steps-Ordered i seen (s ∷ steps) h k =
    let (_, h1) = >>-eq-ok _ _ h in
    let (new, h2) = >>-eq-ok _ _ h1 in
    let (deps, k1) = >>-eq-ok _ _ k in
    (
      ground (arith, index_of-ids seen s.step_id),
      check_deps-AllIn i seen (s ∷ steps) s.step_id [] (elems s.depends_on) deps,
      steps-Ordered (i + 1) ((s.step_id, i) ∷ seen) steps h2 k1,
    )

-- A plan that validation accepts has distinct step ids, and every step depends only on steps that
-- stand before it.
pub validate_plan-Ordered : (p : RepairPlan) → validate_plan p ≡ ok tt → Ordered [] (elems p.steps)
unfolding validate_plan ids
validate_plan-Ordered p h =
    let indexed : index_steps 0 [] (elems p.steps) ≡ ok tt = ground arith in
    let ordered : check_order (step_index 0 [] (elems p.steps)) 0 (elems p.steps) ≡ ok tt =
      ground arith in
    steps-Ordered 0 [] (elems p.steps) indexed ordered
