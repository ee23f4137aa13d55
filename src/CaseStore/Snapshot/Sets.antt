-- ===== src/CaseStore/Snapshot/Sets.antt =====
-- Sets of ids in internal/recovery/casestore/snapshot.go: unique and sorted lists, and exact
-- equality of reference sets.
use Prim.Native.String.{compare}
use text.Mathlib.Text.{is_le}
use effexor_win_doctor.Prelude.{
  ℕ, String, str_append, ◌+◌, Bool, true, false, List, [], ◌∷◌, ◌&&◌, not, ◌==◌, if◌then◌else◌,
  contains_string, ok, guard, ◌>>◌,
}
use effexor_win_doctor.Domain.Errors.{Error, errorf, Check}

-- `fmt.Errorf("%w: …", ErrInvalidArgument, …)`
abbrev pub invalid : String → List String → Error
invalid format args = errorf (str_append "%w: " format) ("casestore: invalid argument" ∷ args)

-- The loop of `uniqueSortedStrings`, before the sort; also the keys of a set made from a list.
unfoldable pub unique_from : List String → List String → List String
unique_from seen [] = []
unique_from seen (v ∷ vs) =
    let skipped = unique_from seen vs in
    let kept = v ∷ unique_from (v ∷ seen) vs in
    if v == "" then skipped else if contains_string seen v then skipped else kept

insert : String → List String → List String
insert v [] = v ∷ []
insert v (w ∷ ws) = let rest = insert v ws in if is_le (compare v w) then v ∷ w ∷ ws else w ∷ rest

-- `sort.Strings`
unfoldable pub sort : List String → List String
unfolding insert
sort [] = []
sort (v ∷ vs) = insert v (sort vs)

unfoldable pub unique_sorted_strings : List String → List String
unfolding unique_from sort
unique_sorted_strings values = sort (unique_from [] values)

unfoldable pub same_strings : List String → List String → Bool
same_strings [] [] = true
same_strings [] (w ∷ ws) = false
same_strings (v ∷ vs) [] = false
same_strings (v ∷ vs) (w ∷ ws) = v == w && same_strings vs ws

unfoldable pub require_exact_ref_set : List String → List String → Check
unfolding same_strings
require_exact_ref_set got want =
    guard (same_strings (unique_sorted_strings got) (unique_sorted_strings want))
      (errorf "exact ref set mismatch: got %v want %v" [])

-- The number of keys of a set made from a list.
unfoldable pub distinct : List String → List String → List String
distinct seen [] = []
distinct seen (v ∷ vs) =
    let skipped = distinct seen vs in
    let kept = v ∷ distinct (v ∷ seen) vs in if contains_string seen v then skipped else kept

-- `for _, x := range values { if seen[id(x)] { return duplicate }; seen[id(x)] = … }`
unfoldable pub unique_ids {ℓ} : {A : Type ℓ} → String → (A → String) → List String → List A → Check
unique_ids format id seen [] = ok tt
unique_ids format id seen (x ∷ xs) =
    guard (not (contains_string seen (id x))) (invalid format (id x ∷ []))
    >> unique_ids format id (id x ∷ seen) xs

-- `for i, x := range values { if err := check(i, x); err != nil { return err } }`
unfoldable pub for_each {ℓ} : {A : Type ℓ} → (ℕ → A → Check) → ℕ → List A → Check
for_each check i [] = ok tt
for_each check i (x ∷ xs) = check i x >> for_each check (i + 1) xs
