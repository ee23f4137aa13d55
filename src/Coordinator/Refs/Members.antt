-- ===== src/Coordinator/Refs/Members.antt =====
-- What `uniqueRefs` of internal/recovery/coordinator/refs.go keeps.
use effexor_win_doctor.Prelude.{
  String, ◌≡◌, refl, true, not, ◌&&◌, List, [], ◌∷◌, arith, ◌==◌, ==_refl, eq_iff, contains_string,
  no_repeats,
}
use effexor_win_doctor.Coordinator.Refs.{unique_refs, unique_refs_from}

-- The kept ids are those of the list that are set and were not seen.
members_from :
    (seen ids : List String) (id : String)
    → contains_string (unique_refs_from seen ids) id
      ≡ contains_string ids id && not (id == "") && not (contains_string seen id)
unfolding unique_refs_from
members_from seen [] id = refl
members_from seen (v ∷ ids) id =
    let skipped = members_from seen ids id in
    let kept = members_from (v ∷ seen) ids id in
    ground (arith, eq_iff v id, eq_iff v "", eq_iff id "")

no_repeats_from : (seen ids : List String) → no_repeats (unique_refs_from seen ids) ≡ true
unfolding unique_refs_from
no_repeats_from seen [] = refl
no_repeats_from seen (v ∷ ids) =
    let skipped = no_repeats_from seen ids in
    let kept = no_repeats_from (v ∷ seen) ids in
    let new = members_from (v ∷ seen) ids v in ground (arith, ==_refl v)

-- The references of an event hold each id of the list that is set, no other id, and none twice.
pub unique_refs_lem :
    (ids : List String) (id : String)
    → (contains_string (unique_refs ids) id ≡ contains_string ids id && not (id == ""))
      × (no_repeats (unique_refs ids) ≡ true)
unfolding unique_refs
unique_refs_lem ids id = let m = members_from [] ids id in (ground arith, no_repeats_from [] ids)
