-- ===== src/BootDoctor/Suppress.antt =====
-- Which findings suppress which, internal/recovery/bootdoctor/suppress.go. The map of drafts is the
-- list of its entries, each code once.
pub mod Kept
use effexor_win_doctor.Prelude.{
  String, Bool, ◌==◌, if◌then◌else◌, List, [], ◌∷◌, ◌++◌, contains_string, is_empty,
}
use effexor_win_doctor.BootDoctor.Codes.{
  bcd_cross_disk_mismatch, bcd_membership_unknown, bcd_points_to_unknown_installation,
  bcd_windows_entry_missing, bitlocker_locked, bitlocker_status_unknown, boot_topology_ambiguous,
  boot_topology_conflicting, boot_topology_consistent, boot_topology_incomplete,
  efi_system_partition_cross_disk, firmware_mode_conflicting, firmware_mode_unknown,
  legacy_with_gpt_layout, multiple_windows_installations, storage_evidence_missing,
  storage_health_critical, storage_health_unknown, uefi_with_mbr_system_disk,
  windows_installation_ambiguous, windows_installation_incomplete, windows_installation_missing,
  windows_partition_relation_unknown, windows_system_disk_relation_unknown,
}

pub record Draft : Type 0 where
  pub targets : List String
  pub evidence : List String
  pub extra_lim : List String
  pub insuff : Bool

abbrev pub Drafts : Type 0
Drafts = List (String × Draft)

-- `suppressWhenPresent`
abbrev suppress_when_present : List (String × List String)
suppress_when_present =
    (
      windows_installation_missing,
      bcd_membership_unknown ∷ bcd_windows_entry_missing ∷ bcd_points_to_unknown_installation
          ∷ windows_partition_relation_unknown ∷ windows_system_disk_relation_unknown
          ∷ windows_installation_incomplete ∷ [],
    )
    ∷ (
      multiple_windows_installations,
      bcd_membership_unknown ∷ bcd_windows_entry_missing ∷ bcd_points_to_unknown_installation ∷ [],
    )
    ∷ (
      windows_installation_ambiguous,
      bcd_membership_unknown ∷ bcd_windows_entry_missing ∷ bcd_points_to_unknown_installation ∷ [],
    )
    ∷ (
      firmware_mode_conflicting,
      boot_topology_consistent ∷ uefi_with_mbr_system_disk ∷ legacy_with_gpt_layout ∷ [],
    )
    ∷ (
      firmware_mode_unknown,
      boot_topology_consistent ∷ uefi_with_mbr_system_disk ∷ legacy_with_gpt_layout ∷ [],
    )
    ∷ (bitlocker_locked, boot_topology_consistent ∷ [])
    ∷ (bitlocker_status_unknown, boot_topology_consistent ∷ [])
    ∷ (storage_health_critical, boot_topology_consistent ∷ [])
    ∷ (storage_health_unknown, boot_topology_consistent ∷ [])
    ∷ (storage_evidence_missing, boot_topology_consistent ∷ [])
    ∷ (boot_topology_ambiguous, boot_topology_consistent ∷ [])
    ∷ (boot_topology_incomplete, boot_topology_consistent ∷ [])
    ∷ (boot_topology_conflicting, boot_topology_consistent ∷ [])
    ∷ (efi_system_partition_cross_disk, boot_topology_consistent ∷ [])
    ∷ (bcd_cross_disk_mismatch, boot_topology_consistent ∷ [])
    ∷ []

victims_in : List (String × List String) → String → List String
victims_in [] present = []
victims_in ((code, victims) ∷ rows) present =
    if code == present then victims else victims_in rows present

-- `suppressWhenPresent[present]`
unfoldable pub victims_of : String → List String
unfolding victims_in
victims_of present = victims_in suppress_when_present present

-- The set `drop`.
unfoldable pub dropped : Drafts → List String
unfolding victims_of
dropped [] = []
dropped ((present, d) ∷ codes) = victims_of present ++ dropped codes

unfoldable pub without : List String → Drafts → Drafts
without drop [] = []
without drop ((code, d) ∷ codes) =
    let rest = without drop codes in if contains_string drop code then rest else (code, d) ∷ rest

unfoldable pub apply_suppression : Drafts → Drafts
unfolding dropped without
apply_suppression codes = if is_empty (dropped codes) then codes else without (dropped codes) codes
