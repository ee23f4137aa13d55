-- ===== src/Domain/Checks/UniqueLists.antt =====
-- What `requireUniqueIDList` of internal/recovery/domain/validate_helpers.go establishes.
use effexor_win_doctor.Prelude.{
  ℕ, ◌+◌, String, ◌≡◌, refl, Bool, true, false, Option, some, none, ◌||◌, List, [], ◌∷◌, arith, all,
  contains_string, no_repeats, ok, elems, is_some, eq_iff,
}
use effexor_win_doctor.Domain.Checks.{require_unique_id_list, unique_ids_from}

-- Has a text of a list been seen?
seen_in : List String → List String → Bool
seen_in seen [] = false
seen_in seen (id ∷ ids) = contains_string seen id || seen_in seen ids

seen_in-cons :
    (v : String) (seen ids : List String)
    → seen_in (v ∷ seen) ids ≡ contains_string ids v || seen_in seen ids
unfolding seen_in
seen_in-cons v seen [] = refl
seen_in-cons v seen (id ∷ ids) =
    let rest = seen_in-cons v seen ids in ground (arith, eq_iff v id, eq_iff id v)

unique_from-no_repeats :
    (field : String) (re : String → Bool) (i : ℕ) (seen ids : List String)
    → unique_ids_from field re i seen ids ≡ ok tt
    → (no_repeats ids ≡ true) × (all re ids ≡ true) × (seen_in seen ids ≡ false)
unfolding unique_ids_from seen_in
unique_from-no_repeats field re i seen [] h = (refl, refl, refl)
unique_from-no_repeats field re i seen (id ∷ ids) h =
    let next : unique_ids_from field re (i + 1) (id ∷ seen) ids ≡ ok tt = ground arith in
    let new : contains_string seen id ≡ false = ground arith in
    let good : re id ≡ true = ground arith in
    let (n, a, s) = unique_from-no_repeats field re (i + 1) (id ∷ seen) ids next in
    let split = seen_in-cons id seen ids in (ground arith, ground arith, ground arith)

-- A list of ids that passes is there, has no id twice, and all of its ids match the pattern.
pub require_unique_id_list_lem :
    (field : String) (ids : Option (List String)) (re : String → Bool)
    → require_unique_id_list field ids re ≡ ok tt
    → (is_some ids ≡ true) × (no_repeats (elems ids) ≡ true) × (all re (elems ids) ≡ true)
unfolding require_unique_id_list
require_unique_id_list_lem field none re h = absurd (let z : ⊥ = cc in z)
require_unique_id_list_lem field (some ids) re h =
    let (n, a, _) = unique_from-no_repeats field re 0 [] ids h in (refl, n, a)
