-- ===== src/Domain/Checks.antt =====
-- The shared checks of internal/recovery/domain/validate_helpers.go and crossrefs.go. An optional
-- slice is `none` where Go's is nil; a set is the list of its members.
pub mod UniqueLists
use text.Mathlib.Text.{starts_with, find?}
use Prim.Native.Char.{code}
use effexor_win_doctor.Prelude.{
  ℕ, String, str_append, ◌+◌, Bool, false, Option, none, some, List, [], ◌∷◌, ◌||◌, ◌&&◌, not, ltb,
  eqb, ◌==◌, is_some, if◌then◌else◌, ok, err, guard, ◌>>◌, trim_space, contains_string, itoa,
}
use effexor_win_doctor.Domain.Errors.{errorf, Check}
use effexor_win_doctor.Domain.Patterns.{re_sha256}
use effexor_win_doctor.Domain.Time.{parse}

-- doc.go
abbrev pub schema_version : String
schema_version = "1.0.0"

unfoldable pub require_non_empty : String → String → Check
unfolding trim_space
require_non_empty field value =
    guard (not (trim_space value == "")) (errorf "%s is required" (field ∷ []))

unfoldable pub require_match : String → String → (String → Bool) → Check
unfolding require_non_empty
require_match field value re = do
  require_non_empty field value
  guard (re value) (errorf "%s %q does not match required pattern" (field ∷ value ∷ []))

unfoldable pub require_rfc3339 : String → String → Check
unfolding require_non_empty parse
require_rfc3339 field value = do
  require_non_empty field value
  guard (is_some (parse value)) (errorf "%s must be RFC3339: %w" (field ∷ []))

unfoldable pub require_sha256 : String → String → Check
unfolding require_non_empty re_sha256
require_sha256 field value = do
  require_non_empty field value
  guard (re_sha256 value) (errorf "%s must be 64 hexadecimal characters" (field ∷ []))

unfoldable pub require_schema : String → String → String → Check
require_schema name version want = do
  guard (name == want) (errorf "schema_name must be %q" (want ∷ []))
  guard (version == schema_version) (errorf "schema_version must be %q" (schema_version ∷ []))

unfoldable pub require_enum : String → String → List String → Check
unfolding require_non_empty
require_enum field value allowed = do
  require_non_empty field value
  guard (contains_string allowed value) (errorf "%s has unknown value %q" (field ∷ value ∷ []))

-- `len(path) >= 2 && path[1] == ':'`, on bytes: the first character is then one byte long.
abbrev pub has_drive : String → Bool
has_drive String.[] = false
has_drive (String.◌∷◌ c String.[]) = false
has_drive (String.◌∷◌ c (String.◌∷◌ d s)) = ltb (code c) 128 && eqb (code d) b':'

-- `strings.Contains`
abbrev pub contains_text : String → String → Bool
contains_text s t = is_some (find? s t)

unfoldable pub validate_relative_path : String → String → Check
unfolding require_non_empty
validate_relative_path field path = do
  require_non_empty field path
  guard (not (starts_with path "/" || starts_with path "\\"))
      (errorf "%s must not be absolute" (field ∷ []))
  guard (not (has_drive path)) (errorf "%s must not be absolute" (field ∷ []))
  guard (not (contains_text path "../" || contains_text path "..\\"))
      (errorf "%s must not contain path traversal" (field ∷ []))
  guard (not (path == ".." || starts_with path "../" || starts_with path "..\\"))
      (errorf "%s must not contain path traversal" (field ∷ []))

-- `fmt.Sprintf("%s[%d]", field, i)`
abbrev pub indexed : String → ℕ → String
indexed field i = str_append field (str_append "[" (str_append (itoa i) "]"))

-- `for i, id := range values { requireMatch(field[i], id, re) }`
unfoldable pub require_each : String → (String → Bool) → ℕ → List String → Check
unfolding require_match
require_each field re i [] = ok tt
require_each field re i (id ∷ ids) =
    require_match (indexed field i) id re >> require_each field re (i + 1) ids

-- `if values == nil { return … is required }`
unfoldable pub require_present {ℓ} : {A : Type ℓ} → String → Option A → Check
require_present field values = guard (is_some values) (errorf "%s is required" (field ∷ []))

-- A check that is made only of a value that is set.
abbrev pub if_set : String → Check → Check
if_set value check = if value == "" then ok tt else check

-- The loop of `requireUniqueIDList`, with the ids seen so far.
unfoldable pub unique_ids_from : String → (String → Bool) → ℕ → List String → List String → Check
unfolding require_match
unique_ids_from field re i seen [] = ok tt
unique_ids_from field re i seen (id ∷ ids) =
    require_match (indexed field i) id re
    >> (guard (not (contains_string seen id)) (errorf "%s contains duplicate %q" (field ∷ id ∷ []))
        >> unique_ids_from field re (i + 1) (id ∷ seen) ids)

unfoldable pub require_unique_id_list : String → Option (List String) → (String → Bool) → Check
unfolding unique_ids_from
require_unique_id_list field none re = err (errorf "%s is required" (field ∷ []))
require_unique_id_list field (some ids) re = unique_ids_from field re 0 [] ids

-- crossrefs.go
unfoldable pub require_ref : String → String → List String → Check
require_ref kind id known =
    guard (contains_string known id) (errorf "%s %q is not present in known set" (kind ∷ id ∷ []))

-- `for _, id := range ids { requireRef(kind, id, known) }`
unfoldable pub require_refs : String → List String → List String → Check
unfolding require_ref
require_refs kind [] known = ok tt
require_refs kind (id ∷ ids) known = require_ref kind id known >> require_refs kind ids known
