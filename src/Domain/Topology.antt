-- ===== src/Domain/Topology.antt =====
-- The boot topology of a Windows system, internal/recovery/domain/windows_boot_topology.go. Go's
-- enumerations of texts stay texts here, since the analyzer compares them with texts.
pub mod Validation
use effexor_win_doctor.Prelude.{String, Bool, Option, List, [], ◌∷◌}

abbrev pub firmware_uefi : String
firmware_uefi = "uefi"

abbrev pub firmware_bios : String
firmware_bios = "bios"

abbrev pub firmware_unknown : String
firmware_unknown = "unknown"

abbrev pub firmware_conflicting : String
firmware_conflicting = "conflicting"

abbrev pub firmware_modes : List String
firmware_modes = firmware_uefi ∷ firmware_bios ∷ firmware_unknown ∷ firmware_conflicting ∷ []

abbrev pub confidence_ambiguous : String
confidence_ambiguous = "ambiguous"

abbrev pub confidence_unknown : String
confidence_unknown = "unknown"

abbrev pub topology_confidences : List String
topology_confidences =
    "proven" ∷ "strong_inference" ∷ "runtime_only" ∷ confidence_ambiguous ∷ confidence_unknown ∷ []

abbrev pub role_windows_installation : String
role_windows_installation = "windows_installation"

abbrev pub role_windows_partition : String
role_windows_partition = "windows_partition"

abbrev pub role_system_disk : String
role_system_disk = "system_disk"

abbrev pub role_efi_system_partition : String
role_efi_system_partition = "efi_system_partition"

abbrev pub role_bcd_store : String
role_bcd_store = "bcd_store"

abbrev pub role_firmware : String
role_firmware = "firmware"

abbrev pub topology_roles : List String
topology_roles =
    role_windows_installation ∷ role_windows_partition ∷ role_system_disk
    ∷ role_efi_system_partition ∷ role_bcd_store ∷ role_firmware ∷ "bitlocker_volume" ∷ []

abbrev pub relation_contains : String
relation_contains = "contains"

abbrev pub relation_hosts_windows : String
relation_hosts_windows = "hosts_windows"

abbrev pub relation_hosts_esp : String
relation_hosts_esp = "hosts_esp"

abbrev pub relation_contains_bcd_store : String
relation_contains_bcd_store = "contains_bcd_store"

abbrev pub relation_boot_store_for_windows : String
relation_boot_store_for_windows = "boot_store_for_windows"

abbrev pub topology_relation_types : List String
topology_relation_types =
    relation_contains ∷ relation_hosts_windows ∷ relation_hosts_esp ∷ relation_contains_bcd_store
    ∷ relation_boot_store_for_windows ∷ "protected_by_bitlocker" ∷ "health_record_for_disk"
    ∷ "runtime_path_match" ∷ "legacy_report_relation" ∷ "technician_selected" ∷ []

abbrev pub selection_none : String
selection_none = "none"

abbrev pub selection_sources : List String
selection_sources = "automatic" ∷ "technician" ∷ selection_none ∷ []

abbrev pub mutation_eligibility_diagnostic_evidence_only : String
mutation_eligibility_diagnostic_evidence_only = "diagnostic_evidence_only"

abbrev pub mutation_blockers : List String
mutation_blockers =
    "firmware_unknown" ∷ "firmware_conflicting" ∷ "firmware_not_uefi" ∷ "disk_layout_unknown"
    ∷ "disk_not_gpt" ∷ "windows_missing" ∷ "windows_ambiguous" ∷ "windows_partition_unresolved"
    ∷ "system_disk_unresolved" ∷ "esp_missing" ∷ "esp_ambiguous" ∷ "bcd_missing" ∷ "bcd_ambiguous"
    ∷ "bitlocker_inaccessible" ∷ "bitlocker_status_unknown" ∷ "storage_health_unsafe"
    ∷ "storage_health_unknown" ∷ "evidence_incomplete" ∷ "relation_runtime_only"
    ∷ "unsupported_layout" ∷ "technician_selection_required" ∷ []

pub record TopologyCandidate : Type 0 where
  pub candidate_id : String
  pub role : String
  pub target_id : String
  pub confidence : String
  pub evidence_refs : Option (List String)
  pub rationale_codes : Option (List String)
  pub limitations : Option (List String)

pub record TopologyRelation : Type 0 where
  pub relation_id : String
  pub relation_type : String
  pub from_target_id : String
  pub to_target_id : String
  pub confidence : String
  pub evidence_refs : Option (List String)
  pub rationale_codes : Option (List String)
  pub limitations : Option (List String)

pub record TopologySelection : Type 0 where
  pub source : String
  pub windows_target_id : String
  pub windows_partition_target_id : String
  pub system_disk_target_id : String
  pub esp_target_id : String
  pub bcd_target_id : String

pub record TopologyAmbiguity : Type 0 where
  pub code : String
  pub message : String
  pub target_ids : Option (List String)
  pub evidence_refs : Option (List String)

pub record MutationEligibility : Type 0 where
  pub eligible : Bool
  pub basis : String
  pub blockers : Option (List String)

pub record WindowsBootTopology : Type 0 where
  pub schema_name : String
  pub schema_version : String
  pub topology_id : String
  pub case_id : String
  pub resolver_id : String
  pub resolver_version : String
  pub source_commit_id : String
  pub generated_at : String
  pub firmware_mode : String
  pub candidates : Option (List TopologyCandidate)
  pub relations : Option (List TopologyRelation)
  pub selection : TopologySelection
  pub ambiguities : Option (List TopologyAmbiguity)
  pub limitations : Option (List String)
  pub mutation_eligibility : MutationEligibility
