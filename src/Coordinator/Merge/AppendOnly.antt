-- ===== src/Coordinator/Merge/AppendOnly.antt =====
-- What merging findings and plans keeps.
use effexor_win_doctor.Prelude.{
  ◌≡◌, ◌⊎◌, inl, inr, sym, ◌∙◌, not, Option, none, some, List, [], ◌∷◌, ◌++◌, append-nil,
  append_assoc, ◌==◌, Result, ok, >>-eq-ok, ok-injective, if_cases,
}
use effexor_win_doctor.Domain.Evidence.{Finding}
use effexor_win_doctor.Domain.Plans.{RepairPlan}
use effexor_win_doctor.Coordinator.{CommandError}
use effexor_win_doctor.Coordinator.Merge.{
  merge_findings_append_only, merge_plans_immutable, merge_plan, merged_with, last_by_id,
}

-- The merged findings are the old ones, in place, with new ones after them.
unfoldable pub Extends : List Finding → List Finding → Type 0
Extends old all = (added : List Finding) × (all ≡ old ++ added)

one_more :
    (out : List Finding) (f : Finding) (incoming merged : List Finding)
    → Extends (out ++ f ∷ []) merged
    → Extends out merged
unfolding Extends
one_more out f incoming merged (added, h) = (f ∷ added, h ∙ append_assoc out (f ∷ []) added)

-- A finding is dropped or appended.
merged_with_cases :
    (P : Type 0) (prev : Option Finding) (f : Finding)
    (dropped appended : Result CommandError (List Finding)) (merged : List Finding)
    → (dropped ≡ ok merged → P)
    → (appended ≡ ok merged → P)
    → merged_with prev f dropped appended ≡ ok merged
    → P
unfolding merged_with
merged_with_cases P none f dropped appended merged d a h = a h
merged_with_cases P (some p) f dropped appended merged d a h = d (>>-eq-ok _ _ h).1

pub merge-Extends :
    (out incoming merged : List Finding)
    → merge_findings_append_only out incoming ≡ ok merged
    → Extends out merged
unfolding merge_findings_append_only Extends
merge-Extends out [] merged h = ([], sym (ok-injective out merged h) ∙ sym (append-nil out))
merge-Extends out (f ∷ incoming) merged h =
    merged_with_cases (Extends out merged) (last_by_id out f.finding_id none) f
      (merge_findings_append_only out incoming)
      (merge_findings_append_only (out ++ f ∷ []) incoming) merged
      (merge-Extends out incoming merged)
      (λ h'. one_more out f incoming merged (merge-Extends (out ++ f ∷ []) incoming merged h')) h

-- A plan is either there already, with the same content, or it is put at the end.
pub merge_plans_immutable-cases :
    (existing : List RepairPlan) (plan : RepairPlan) (merged : List RepairPlan)
    → merge_plans_immutable existing plan ≡ ok merged
    → (merged ≡ existing) ⊎ (merged ≡ existing ++ plan ∷ [])
unfolding merge_plans_immutable merge_plan
merge_plans_immutable-cases existing plan merged h = go existing h
  where
    go :
        (rest : List RepairPlan)
        → merge_plan existing rest plan ≡ ok merged
        → (merged ≡ existing) ⊎ (merged ≡ existing ++ plan ∷ [])
    go [] h' = inr (sym (ok-injective _ merged h'))
    go (p ∷ rest) h' =
        if_cases (λ r. r ≡ ok merged → (merged ≡ existing) ⊎ (merged ≡ existing ++ plan ∷ []))
          (not (p.plan_id == plan.plan_id)) _ _ (λ _ h''. go rest h'')
          (λ _ h''. inl (sym (ok-injective existing merged (>>-eq-ok _ _ h'').1))) h'
