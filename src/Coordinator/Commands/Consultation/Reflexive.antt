-- ===== src/Coordinator/Commands/Consultation/Reflexive.antt =====
-- A consultation is canonically equal to itself, internal/recovery/coordinator/consultation.go.
use effexor_win_doctor.Prelude.{
  ==_refl, ◌≡◌, refl, Bool, true, Option, none, some, List, [], ◌∷◌, ℤ, pos, negsuc, int_eq, arith,
}
use effexor_win_doctor.Domain.Consultations.{AgentConsultation, AdvisoryHypothesis, RetrievedSource}
use effexor_win_doctor.Coordinator.Merge.Reflexive.{same_slice_refl, same_bool_refl}
use effexor_win_doctor.Coordinator.Commands.Consultation.Equal.{
  same_items, same_documents, same_hypothesis, same_source, consultations_canonically_equal,
}

int_eq_refl : (n : ℤ) → int_eq n n ≡ true
int_eq_refl (pos n) = ground arith
int_eq_refl (negsuc n) = ground arith

same_items_refl :
    {A : Type 0} (same : A → A → Bool) (xs : List A)
    → ((a : A) → same a a ≡ true)
    → same_items same xs xs ≡ true
unfolding same_items
same_items_refl same [] h = refl
same_items_refl same (x ∷ xs) h = ground (arith, h x, same_items_refl same xs h)

same_documents_refl :
    {A : Type 0} (same : A → A → Bool) (xs : Option (List A))
    → ((a : A) → same a a ≡ true)
    → same_documents same xs xs ≡ true
unfolding same_documents
same_documents_refl same none h = refl
same_documents_refl same (some xs) h = same_items_refl same xs h

same_hypothesis_refl : (a : AdvisoryHypothesis) → same_hypothesis a a ≡ true
unfolding same_hypothesis
same_hypothesis_refl a = simp (==_refl, same_slice_refl, same_bool_refl)

same_source_refl : (a : RetrievedSource) → same_source a a ≡ true
unfolding same_source
same_source_refl a = simp (==_refl)

pub consultations_canonically_equal_refl :
    (c : AgentConsultation) → consultations_canonically_equal c c ≡ true
unfolding consultations_canonically_equal
consultations_canonically_equal_refl c =
    let h = same_documents_refl same_hypothesis c.hypotheses same_hypothesis_refl in
    let s = same_documents_refl same_source c.retrieved_sources same_source_refl in
    simp (==_refl, same_slice_refl, same_bool_refl, int_eq_refl, h, s)
