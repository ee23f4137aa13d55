-- ===== src/Domain/Documents.antt =====
-- The case and its targets, internal/recovery/domain: case_manifest.go and target.go. A Go map of texts is the list of its entries.
use effexor_win_doctor.Prelude.{
  String, Option, List, [], ◌∷◌, ◌||◌, not, ◌==◌, elems, is_empty, ok, guard, ◌>>◌, trim_space,
}
use effexor_win_doctor.Domain.Errors.{errorf, Check}
use effexor_win_doctor.Domain.Patterns.{re_case_id, re_target_id}
use effexor_win_doctor.Domain.Checks.{
  require_enum, require_match, require_rfc3339, require_schema, require_present, require_each,
  require_non_empty, validate_relative_path, if_set,
}
use effexor_win_doctor.Domain.Workflow.{CaseState, require_case_state}

pub record CaseManifest : Type 0 where
  pub schema_name : String
  pub schema_version : String
  pub case_id : String
  pub created_at : String
  pub updated_at : String
  pub runtime : String
  pub current_state : CaseState
  pub target_ids : Option (List String)
  pub privacy_class : String
  pub technician_storage_reference : String

abbrev privacy_classes : List String
privacy_classes = "minimal" ∷ "standard" ∷ "elevated" ∷ "restricted" ∷ []

abbrev runtimes : List String
runtimes = "winpe" ∷ "windows" ∷ "lab_host" ∷ "unknown" ∷ []

unfoldable pub validate_case : CaseManifest → Check
unfolding require_schema require_match require_rfc3339 require_enum require_case_state
    require_present require_each validate_relative_path re_case_id re_target_id
validate_case c = do
  require_schema c.schema_name c.schema_version "case-manifest"
  require_match "case_id" c.case_id re_case_id
  require_rfc3339 "created_at" c.created_at
  require_rfc3339 "updated_at" c.updated_at
  require_enum "runtime" c.runtime runtimes
  require_case_state "current_state" c.current_state
  require_present "target_ids" c.target_ids
  require_each "target_ids" re_target_id 0 (elems c.target_ids)
  require_enum "privacy_class" c.privacy_class privacy_classes
  if_set c.technician_storage_reference
      (validate_relative_path "technician_storage_reference" c.technician_storage_reference)

pub record Target : Type 0 where
  pub schema_name : String
  pub schema_version : String
  pub target_id : String
  pub target_type : String
  pub discovered_at : String
  pub display_name : String
  pub stable_identity : Option (List (String × String))
  pub runtime_locators : Option (List (String × String))
  pub capabilities : Option (List String)
  pub limitations : Option (List String)

abbrev target_types : List String
target_types =
    "disk" ∷ "partition" ∷ "volume" ∷ "windows_installation" ∷ "firmware" ∷ "boot_store" ∷ []

identity_entries : List (String × String) → Check
unfolding trim_space
identity_entries [] = ok tt
identity_entries ((k, v) ∷ entries) =
    guard (not (trim_space k == "" || trim_space v == ""))
      (errorf "stable_identity entries must be non-empty" [])
    >> identity_entries entries

unfoldable pub validate_target : Target → Check
unfolding require_schema require_match require_enum require_rfc3339 require_non_empty
    require_present identity_entries re_target_id
validate_target t = do
  require_schema t.schema_name t.schema_version "target"
  require_match "target_id" t.target_id re_target_id
  require_enum "target_type" t.target_type target_types
  require_rfc3339 "discovered_at" t.discovered_at
  require_non_empty "display_name" t.display_name
  guard (not (is_empty (elems t.stable_identity)))
      (errorf "stable_identity must contain at least one field" [])
  identity_entries (elems t.stable_identity)
  require_present "runtime_locators" t.runtime_locators
  require_present "capabilities" t.capabilities
  require_present "limitations" t.limitations
