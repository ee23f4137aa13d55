-- ===== src/BootDoctor/Codes.antt =====
-- The codes of the boot doctor's findings, internal/recovery/bootdoctor/catalog.go.
use effexor_win_doctor.Prelude.{String}

abbrev pub firmware_mode_unknown : String
firmware_mode_unknown = "firmware_mode_unknown"

abbrev pub firmware_mode_conflicting : String
firmware_mode_conflicting = "firmware_mode_conflicting"

abbrev pub uefi_with_mbr_system_disk : String
uefi_with_mbr_system_disk = "uefi_with_mbr_system_disk"

abbrev pub legacy_with_gpt_layout : String
legacy_with_gpt_layout = "legacy_with_gpt_layout"

abbrev pub unsupported_legacy_boot_topology : String
unsupported_legacy_boot_topology = "unsupported_legacy_boot_topology"

abbrev pub windows_installation_missing : String
windows_installation_missing = "windows_installation_missing"

abbrev pub multiple_windows_installations : String
multiple_windows_installations = "multiple_windows_installations"

abbrev pub windows_installation_ambiguous : String
windows_installation_ambiguous = "windows_installation_ambiguous"

abbrev pub windows_partition_relation_unknown : String
windows_partition_relation_unknown = "windows_partition_relation_unknown"

abbrev pub windows_system_disk_relation_unknown : String
windows_system_disk_relation_unknown = "windows_system_disk_relation_unknown"

abbrev pub windows_installation_incomplete : String
windows_installation_incomplete = "windows_installation_incomplete"

abbrev pub efi_system_partition_missing : String
efi_system_partition_missing = "efi_system_partition_missing"

abbrev pub multiple_efi_system_partitions : String
multiple_efi_system_partitions = "multiple_efi_system_partitions"

abbrev pub efi_system_partition_ambiguous : String
efi_system_partition_ambiguous = "efi_system_partition_ambiguous"

abbrev pub efi_system_partition_cross_disk : String
efi_system_partition_cross_disk = "efi_system_partition_cross_disk"

abbrev pub efi_system_partition_relation_unknown : String
efi_system_partition_relation_unknown = "efi_system_partition_relation_unknown"

abbrev pub efi_system_partition_unreadable : String
efi_system_partition_unreadable = "efi_system_partition_unreadable"

abbrev pub bcd_store_missing : String
bcd_store_missing = "bcd_store_missing"

abbrev pub bcd_store_ambiguous : String
bcd_store_ambiguous = "bcd_store_ambiguous"

abbrev pub bcd_store_unreadable : String
bcd_store_unreadable = "bcd_store_unreadable"

abbrev pub bcd_membership_unknown : String
bcd_membership_unknown = "bcd_membership_unknown"

abbrev pub bcd_windows_entry_missing : String
bcd_windows_entry_missing = "bcd_windows_entry_missing"

abbrev pub bcd_points_to_unknown_installation : String
bcd_points_to_unknown_installation = "bcd_points_to_unknown_installation"

abbrev pub bcd_cross_disk_mismatch : String
bcd_cross_disk_mismatch = "bcd_cross_disk_mismatch"

abbrev pub bitlocker_locked : String
bitlocker_locked = "bitlocker_locked"

abbrev pub bitlocker_status_unknown : String
bitlocker_status_unknown = "bitlocker_status_unknown"

abbrev pub bitlocker_recovery_material_required : String
bitlocker_recovery_material_required = "bitlocker_recovery_material_required"

abbrev pub bitlocker_blocks_boot_analysis : String
bitlocker_blocks_boot_analysis = "bitlocker_blocks_boot_analysis"

abbrev pub storage_health_critical : String
storage_health_critical = "storage_health_critical"

abbrev pub storage_health_warning : String
storage_health_warning = "storage_health_warning"

abbrev pub storage_health_unknown : String
storage_health_unknown = "storage_health_unknown"

abbrev pub storage_evidence_missing : String
storage_evidence_missing = "storage_evidence_missing"

abbrev pub unsafe_to_attempt_boot_repair : String
unsafe_to_attempt_boot_repair = "unsafe_to_attempt_boot_repair"

abbrev pub boot_topology_incomplete : String
boot_topology_incomplete = "boot_topology_incomplete"

abbrev pub boot_topology_ambiguous : String
boot_topology_ambiguous = "boot_topology_ambiguous"

abbrev pub boot_topology_conflicting : String
boot_topology_conflicting = "boot_topology_conflicting"

abbrev pub insufficient_evidence_for_repair_plan : String
insufficient_evidence_for_repair_plan = "insufficient_evidence_for_repair_plan"

abbrev pub technician_selection_required : String
technician_selection_required = "technician_selection_required"

abbrev pub boot_topology_consistent : String
boot_topology_consistent = "boot_topology_consistent"
