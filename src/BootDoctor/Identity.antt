-- ===== src/BootDoctor/Identity.antt =====
-- Names of findings and sets of ids, internal/recovery/bootdoctor/identity.go. SHA-256 in hexadecimal
-- is a parameter.
use text.Mathlib.Text.{starts_with}
use effexor_win_doctor.Prelude.{
  ℕ, zero, suc, String, str_append, List, [], ◌∷◌, elems, if◌then◌else◌, trim_space, map,
}
use effexor_win_doctor.Domain.Evidence.{Finding}
use effexor_win_doctor.CaseStore.Snapshot.Sets.{unique_sorted_strings}

abbrev pub analyzer_id : String
analyzer_id = "effexor-recovery-boot-doctor"

abbrev pub analyzer_version : String
analyzer_version = "1.0.0"

abbrev pub code_limit_prefix : String
code_limit_prefix = "finding_code:"

-- `uniqueSorted`: the trimmed texts that are not empty, once each, sorted.
unfoldable pub unique_sorted : List String → List String
unique_sorted texts = unique_sorted_strings (map trim_space texts)

-- `strings.Join(texts, ",")`
unfoldable pub join : List String → String
join [] = ""
join (t ∷ []) = t
join (t ∷ u ∷ ts) = str_append t (str_append "," (join (u ∷ ts)))

-- `s[:n]`, of hexadecimal digits.
unfoldable pub take_text : ℕ → String → String
take_text zero s = ""
take_text (suc n) String.[] = ""
take_text (suc n) (String.◌∷◌ c s) = String.◌∷◌ c (take_text n s)

-- The text that is hashed.
unfoldable pub identity_text : String → String → List String → List String → String
unfolding unique_sorted join
identity_text case_id code targets evidence = str_append "bootdoctor|" (
    str_append analyzer_version (
      str_append "|" (
        str_append case_id (
          str_append "|" (
            str_append code (
              str_append "|targets=" (
                str_append (join (unique_sorted targets))
                  (str_append "|evidence=" (join (unique_sorted evidence))))))))))

unfoldable pub finding_id_for :
    (String → String) → String → String → List String → List String → String
unfolding identity_text take_text
finding_id_for sha256_hex case_id code targets evidence =
    str_append "finding-" (take_text 24 (sha256_hex (identity_text case_id code targets evidence)))

-- `strings.TrimPrefix` of a prefix that is there.
without_prefix : String → String → String
without_prefix String.[] s = s
without_prefix (String.◌∷◌ p ps) String.[] = ""
without_prefix (String.◌∷◌ p ps) (String.◌∷◌ c s) = without_prefix ps s

code_in : List String → String
unfolding without_prefix
code_in [] = ""
code_in (lim ∷ lims) =
    if starts_with lim code_limit_prefix then without_prefix code_limit_prefix lim else code_in lims

-- `FindingCodeOf`
unfoldable pub finding_code_of : Finding → String
unfolding code_in
finding_code_of f = code_in (elems f.limitations)
