-- ===== src/Coordinator/Commands/BootAnalysis/Held.antt =====
-- Findings that were merged stand in the case: findings.go and `findingsSubsetEqual` of bootdoctor.go,
-- internal/recovery/coordinator.
use effexor_win_doctor.Prelude.{
  String, ◌≡◌, refl, ap, sym, ◌∙◌, ◌⊎◌, inl, inr, true, ◌&&◌, ◌||◌, ◌==◌, if◌then◌else◌, Option,
  none, some, List, [], ◌∷◌, ◌++◌, Result, ok, arith, eq_iff, ==_refl, >>-eq-ok, guard-eq-ok,
  ok-injective, Bool-cases,
}
use effexor_win_doctor.Domain.Evidence.{Finding}
use effexor_win_doctor.Domain.Events.{CoordinatorEvent}
use effexor_win_doctor.Coordinator.{CommandError}
use effexor_win_doctor.Coordinator.Merge.{
  merge_findings_append_only, merged_with, last_by_id, findings_canonically_equal,
}
use effexor_win_doctor.Coordinator.Merge.Reflexive.{findings_canonically_equal_refl}
use effexor_win_doctor.Coordinator.Commands.BootAnalysis.{
  findings_subset_equal, was_committed, is_analysis,
}

last_by_id-snoc :
    (out : List Finding) (f : Finding) (id : String) (found : Option Finding)
    → last_by_id (out ++ f ∷ []) id found
      ≡ (if f.finding_id == id then some f else last_by_id out id found)
unfolding last_by_id
last_by_id-snoc [] f id found = refl
last_by_id-snoc (e ∷ out) f id found =
    last_by_id-snoc out f id (if e.finding_id == id then some e else found)

-- Where a merge goes.
merged_with_split :
    (prev : Option Finding) (f : Finding) (dropped appended : Result CommandError (List Finding))
    (merged : List Finding)
    → merged_with prev f dropped appended ≡ ok merged
    → ((prev ≡ none) × (appended ≡ ok merged))
      ⊎ ((p : Finding) × (prev ≡ some p)
          × (findings_canonically_equal p f ≡ true)
          × (dropped ≡ ok merged))
unfolding merged_with
merged_with_split none f dropped appended merged h = inl (refl, h)
merged_with_split (some p) f dropped appended merged h =
    let (h1, h2) = >>-eq-ok _ _ h in inr (p, refl, guard-eq-ok _ _ h1, h2)

-- A finding that is there stays the last with its id.
last_by_id-merge :
    (out incoming merged : List Finding) (id : String) (p : Finding)
    → merge_findings_append_only out incoming ≡ ok merged
    → last_by_id out id none ≡ some p
    → last_by_id merged id none ≡ some p
unfolding merge_findings_append_only
last_by_id-merge out [] merged id p h k =
    ap (λ l. last_by_id l id none) (sym (ok-injective out merged h)) ∙ k
last_by_id-merge out (f ∷ incoming) merged id p h k =
    elim (merged_with_split (last_by_id out f.finding_id none) f
      (merge_findings_append_only out incoming)
      (merge_findings_append_only (out ++ f ∷ []) incoming) merged h) [
        | inr (_, _, _, dropped) ↦ last_by_id-merge out incoming merged id p dropped k
        | inl (new, appended) ↦
            last_by_id-merge (out ++ f ∷ []) incoming merged id p appended
              (elim (Bool-cases (f.finding_id == id)) [
                | inl same ↦
                    let was = ap (λ x. last_by_id out x none) ((eq_iff f.finding_id id).0 same) in
                    absurd (let e : none ≡ some p = sym new ∙ (was ∙ k) in let z : ⊥ = cc in z)
                | inr other ↦
                    last_by_id-snoc out f id none
                    ∙ (ap (λ b. if b then some f else last_by_id out id none) other ∙ k)
              ])
      ]

-- After a merge that passes, each of the findings stands in the case with the same content.
pub merge-held :
    (out incoming merged : List Finding)
    → merge_findings_append_only out incoming ≡ ok merged
    → findings_subset_equal merged incoming ≡ true
unfolding merge_findings_append_only findings_subset_equal
merge-held out [] merged h = refl
merge-held out (f ∷ incoming) merged h =
    elim (merged_with_split (last_by_id out f.finding_id none) f
      (merge_findings_append_only out incoming)
      (merge_findings_append_only (out ++ f ∷ []) incoming) merged h) [
        | inr (p, old, equal, dropped) ↦
            let last = last_by_id-merge out (f ∷ incoming) merged f.finding_id p h old in
            let rest = merge-held out incoming merged dropped in ground arith
        | inl (new, appended) ↦
            let here =
              last_by_id-snoc out f f.finding_id none
              ∙ ap (λ b. if b then some f else last_by_id out f.finding_id none)
                  (==_refl f.finding_id) in
            let last =
              last_by_id-merge (out ++ f ∷ []) incoming merged f.finding_id f appended here in
            let equal = findings_canonically_equal_refl f in
            let rest = merge-held (out ++ f ∷ []) incoming merged appended in ground arith
      ]

-- An event at the end counts as the others do.
pub was_committed-snoc :
    (es : List CoordinatorEvent) (e : CoordinatorEvent) (request_id : String)
    → was_committed (es ++ e ∷ []) request_id
      ≡ was_committed es request_id || (is_analysis e.event_type && e.command_id == request_id)
unfolding was_committed
was_committed-snoc [] e request_id = ground arith
was_committed-snoc (d ∷ es) e request_id = ground (arith, was_committed-snoc es e request_id)
