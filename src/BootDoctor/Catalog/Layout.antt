-- ===== src/BootDoctor/Catalog/Layout.antt =====
-- Firmware, Windows and EFI findings, internal/recovery/bootdoctor/catalog.go.
use effexor_win_doctor.Prelude.{String, List, [], ◌∷◌}
use effexor_win_doctor.BootDoctor.Codes.{
  firmware_mode_unknown, firmware_mode_conflicting, uefi_with_mbr_system_disk,
  legacy_with_gpt_layout, unsupported_legacy_boot_topology, windows_installation_missing,
  multiple_windows_installations, windows_installation_ambiguous,
  windows_partition_relation_unknown, windows_system_disk_relation_unknown,
  windows_installation_incomplete, efi_system_partition_missing, multiple_efi_system_partitions,
  efi_system_partition_ambiguous, efi_system_partition_cross_disk,
  efi_system_partition_relation_unknown, efi_system_partition_unreadable,
}
use effexor_win_doctor.BootDoctor.Catalog.Spec.{CodeSpec}

abbrev pub firmware_specs : List (String × CodeSpec)
firmware_specs =
    (
      firmware_mode_unknown,
      record {
        severity = "high";
        confidence = "low";
        title = "Firmware boot mode is unknown";
        rationale =
            "Evidence does not establish a single firmware boot mode, so boot-chain conclusions remain provisional.";
        workflows = "boot.inspect_firmware_mode" ∷ [];
      },
    )
    ∷ (
      firmware_mode_conflicting,
      record {
        severity = "high";
        confidence = "high";
        title = "Firmware boot mode evidence conflicts";
        rationale =
            "Collected firmware facts disagree (for example UEFI vs BIOS). No single boot chain may be assumed.";
        workflows = "boot.inspect_firmware_mode" ∷ [];
      },
    )
    ∷ (
      uefi_with_mbr_system_disk,
      record {
        severity = "high";
        confidence = "high";
        title = "UEFI firmware with MBR system disk";
        rationale =
            "Firmware mode is UEFI while the selected or only system disk uses MBR partition style.";
        workflows = "storage.inspect_partition_layout" ∷ "boot.inspect_firmware_mode" ∷ [];
      },
    )
    ∷ (
      legacy_with_gpt_layout,
      record {
        severity = "medium";
        confidence = "high";
        title = "Legacy BIOS firmware with GPT layout";
        rationale =
            "Firmware mode is legacy/BIOS while disk layout is GPT, which is an unusual and often unsupported combination for this Boot Doctor profile.";
        workflows = "storage.inspect_partition_layout" ∷ "boot.inspect_firmware_mode" ∷ [];
      },
    )
    ∷ (
      unsupported_legacy_boot_topology,
      record {
        severity = "high";
        confidence = "medium";
        title = "Unsupported legacy boot topology";
        rationale =
            "Automatic Boot Doctor analysis supports UEFI+GPT recovery paths; legacy BIOS topologies require technician-directed follow-up.";
        workflows = "boot.inspect_firmware_mode" ∷ [];
      },
    )
    ∷ []

abbrev pub windows_specs : List (String × CodeSpec)
windows_specs =
    (
      windows_installation_missing,
      record {
        severity = "high";
        confidence = "high";
        title = "No Windows installation target found";
        rationale =
            "Topology candidates do not include a Windows installation role grounded in evidence.";
        workflows = "windows.inspect_installation" ∷ [];
      },
    )
    ∷ (
      multiple_windows_installations,
      record {
        severity = "medium";
        confidence = "high";
        title = "Multiple Windows installations present";
        rationale =
            "More than one Windows installation candidate exists; automatic selection is not permitted.";
        workflows = "windows.inspect_installation" ∷ [];
      },
    )
    ∷ (
      windows_installation_ambiguous,
      record {
        severity = "medium";
        confidence = "low";
        title = "Windows installation selection is ambiguous";
        rationale =
            "Windows installation candidates or relations are ambiguous and require technician selection.";
        workflows = "windows.inspect_installation" ∷ [];
      },
    )
    ∷ (
      windows_partition_relation_unknown,
      record {
        severity = "medium";
        confidence = "low";
        title = "Windows-to-partition relation is unknown";
        rationale =
            "A Windows installation is present but its hosting partition relation is missing or not proven.";
        workflows = "windows.inspect_installation" ∷ "storage.inspect_partition_layout" ∷ [];
      },
    )
    ∷ (
      windows_system_disk_relation_unknown,
      record {
        severity = "medium";
        confidence = "low";
        title = "Windows partition-to-disk relation is unknown";
        rationale =
            "The Windows partition cannot be related to a system disk with acceptable confidence.";
        workflows = "storage.inspect_partition_layout" ∷ [];
      },
    )
    ∷ (
      windows_installation_incomplete,
      record {
        severity = "medium";
        confidence = "medium";
        title = "Windows installation topology is incomplete";
        rationale =
            "Windows installation evidence is present but required partition or disk roles remain unresolved.";
        workflows = "windows.inspect_installation" ∷ [];
      },
    )
    ∷ []

abbrev pub esp_specs : List (String × CodeSpec)
esp_specs =
    (
      efi_system_partition_missing,
      record {
        severity = "medium";
        confidence = "high";
        title = "EFI System Partition is missing";
        rationale = "No EFI System Partition candidate was identified from partition evidence.";
        workflows = "boot.inspect_efi_layout" ∷ [];
      },
    )
    ∷ (
      multiple_efi_system_partitions,
      record {
        severity = "medium";
        confidence = "high";
        title = "Multiple EFI System Partitions present";
        rationale = "More than one ESP candidate exists; automatic selection is not permitted.";
        workflows = "boot.inspect_efi_layout" ∷ [];
      },
    )
    ∷ (
      efi_system_partition_ambiguous,
      record {
        severity = "medium";
        confidence = "low";
        title = "EFI System Partition selection is ambiguous";
        rationale = "ESP candidates or relations are ambiguous and require technician selection.";
        workflows = "boot.inspect_efi_layout" ∷ [];
      },
    )
    ∷ (
      efi_system_partition_cross_disk,
      record {
        severity = "critical";
        confidence = "high";
        title = "EFI System Partition is on a different disk";
        rationale =
            "ESP and Windows system disk roles are not connected on the same disk, creating cross-disk boot risk.";
        workflows = "boot.inspect_efi_layout" ∷ "storage.inspect_partition_layout" ∷ [];
      },
    )
    ∷ (
      efi_system_partition_relation_unknown,
      record {
        severity = "medium";
        confidence = "low";
        title = "ESP-to-disk relation is unknown";
        rationale =
            "An ESP candidate exists without a proven hosts_esp relation to the system disk.";
        workflows = "boot.inspect_efi_layout" ∷ [];
      },
    )
    ∷ (
      efi_system_partition_unreadable,
      record {
        severity = "medium";
        confidence = "medium";
        title = "EFI System Partition evidence is unreadable";
        rationale =
            "Evidence explicitly indicates the ESP could not be read; filesystem corruption is not asserted without that proof.";
        workflows = "boot.inspect_efi_layout" ∷ [];
      },
    )
    ∷ []
