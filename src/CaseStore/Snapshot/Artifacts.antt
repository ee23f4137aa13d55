-- ===== src/CaseStore/Snapshot/Artifacts.antt =====
-- Artifact references of a snapshot: `rejectTraversal` of internal/recovery/casestore/paths.go,
-- `artifactRefsEqual` and the loop over the evidence bundles of snapshot.go.
use text.Mathlib.Text.{starts_with}
use effexor_win_doctor.Prelude.{
  ℕ, String, ◌+◌, int_eq, Bool, true, false, Option, none, some, List, [], ◌∷◌, ◌++◌, ◌&&◌, ◌||◌,
  not, ltb, leb, eqb, ◌==◌, if◌then◌else◌, elems, codes, contains_string, Result, ok, guard,
  map_err, ◌>>=◌, ◌>>◌,
}
use effexor_win_doctor.Domain.Errors.{Error, errorf, wrap, Check}
use effexor_win_doctor.Domain.Checks.{has_drive, contains_text}
use effexor_win_doctor.Domain.Evidence.{ArtifactRef, EvidenceBundle}
use effexor_win_doctor.CaseStore.Snapshot.Sets.{invalid}

-- Is a part between slashes `..`? The number is what the part holds so far: nothing, one point, two
-- points, or else. Windows' `filepath.ToSlash` makes a backslash a slash.
dotdot_part : ℕ → List ℕ → Bool
dotdot_part seen [] = eqb seen 2
dotdot_part seen (c ∷ cs) =
    let fresh = dotdot_part 0 cs in
    let more = dotdot_part (seen + 1) cs in
    let other = dotdot_part 3 cs in
    if eqb c b'/' || eqb c b'\\'
    then (if eqb seen 2 then true else fresh)
    else (if eqb c b'.' && ltb seen 2 then more else other)

path_unsafe : String → String → Error
path_unsafe format path = errorf format ("casestore: unsafe path" ∷ path ∷ [])

unfoldable pub reject_traversal : String → Check
unfolding dotdot_part path_unsafe
reject_traversal path = do
  guard (not (path == "")) (path_unsafe "%w: empty path" path)
  guard (not (starts_with path "/" || starts_with path "\\"))
      (path_unsafe "%w: absolute path %q" path)
  guard (not (has_drive path)) (path_unsafe "%w: absolute path %q" path)
  guard (not (dotdot_part 0 (codes path))) (path_unsafe "%w: path traversal in %q" path)
  guard (not (contains_text path "../" || contains_text path "..\\"))
      (path_unsafe "%w: path traversal in %q" path)

-- `strings.EqualFold` for texts whose letters are ASCII's: others only equal themselves, with the
-- long s and the Kelvin sign, which fold to ASCII letters.
fold_code : ℕ → ℕ
fold_code c =
    if leb b'A' c && leb c b'Z'
    then c + 32
    else if eqb c 0x17f
    then b's'
    else if eqb c 0x212a
    then b'k'
    else c

same_folded : List ℕ → List ℕ → Bool
unfolding fold_code
same_folded [] [] = true
same_folded [] (d ∷ ds) = false
same_folded (c ∷ cs) [] = false
same_folded (c ∷ cs) (d ∷ ds) = eqb (fold_code c) (fold_code d) && same_folded cs ds

unfoldable pub artifact_refs_equal : ArtifactRef → ArtifactRef → Bool
unfolding same_folded
artifact_refs_equal a b =
    a.artifact_id == b.artifact_id
    && a.kind == b.kind
    && a.relative_path == b.relative_path
    && same_folded (codes a.sha256) (codes b.sha256)
    && int_eq a.size_bytes b.size_bytes
    && a.created_at == b.created_at
    && a.media_classification == b.media_classification

find_artifact : List ArtifactRef → String → Option ArtifactRef
find_artifact [] id = none
find_artifact (a ∷ known) id = if a.artifact_id == id then some a else find_artifact known id

agrees : ArtifactRef → Option ArtifactRef → Check
agrees a none = ok tt
agrees a (some prev) =
    guard (artifact_refs_equal prev a)
      (invalid "divergent metadata for artifact_id %q" (a.artifact_id ∷ []))

-- `artifactByID`: the first of each id; a later one must be the same.
collect_artifacts : List ArtifactRef → List ArtifactRef → Result Error (List ArtifactRef)
unfolding reject_traversal find_artifact agrees
collect_artifacts known [] = ok known
collect_artifacts known (a ∷ artifacts) =
    map_err (wrap "evidence_bundles[%d].artifacts[%d]: %w" []) (reject_traversal a.relative_path)
    >> (agrees a (find_artifact known a.artifact_id)
        >> collect_artifacts (known ++ a ∷ []) artifacts)

unfoldable pub collect_evidence :
    String → List String → List ArtifactRef → List EvidenceBundle → Result Error (List ArtifactRef)
unfolding collect_artifacts
collect_evidence case_id seen known [] = ok known
collect_evidence case_id seen known (e ∷ bundles) =
    guard (e.case_id == case_id) (invalid "evidence_bundles[%d].case_id mismatch" [])
    >> (guard (not (contains_string seen e.evidence_id))
          (invalid "duplicate evidence_id %q" (e.evidence_id ∷ []))
        >> (collect_artifacts known (elems e.artifacts) >>= λ known'.
            collect_evidence case_id (e.evidence_id ∷ seen) known' bundles))
