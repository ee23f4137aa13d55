-- ===== src/Coordinator/Merge/Reflexive.antt =====
-- A document has the canonical JSON of itself, internal/recovery/coordinator/findings.go.
use effexor_win_doctor.Prelude.{
  String, ==_refl, ◌≡◌, refl, Bool, true, false, Option, none, some, List, [], ◌∷◌, arith,
}
use effexor_win_doctor.Domain.Evidence.{Finding}
use effexor_win_doctor.CaseStore.Snapshot.Sets.{same_strings}
use effexor_win_doctor.Coordinator.Merge.{same_slice, same_bool, findings_canonically_equal}

same_strings_refl : (ts : List String) → same_strings ts ts ≡ true
unfolding same_strings
same_strings_refl [] = refl
same_strings_refl (t ∷ ts) = ground (arith, ==_refl t, same_strings_refl ts)

pub same_slice_refl : (ts : Option (List String)) → same_slice ts ts ≡ true
unfolding same_slice
same_slice_refl none = refl
same_slice_refl (some ts) = same_strings_refl ts

pub same_bool_refl : (b : Bool) → same_bool b b ≡ true
unfolding same_bool
same_bool_refl true = refl
same_bool_refl false = refl

pub findings_canonically_equal_refl : (f : Finding) → findings_canonically_equal f f ≡ true
unfolding findings_canonically_equal
findings_canonically_equal_refl f = simp (==_refl, same_slice_refl, same_bool_refl)
