-- ===== src/BootDoctor/Catalog/Chain.antt =====
-- Boot store, BitLocker, storage and topology findings, internal/recovery/bootdoctor/catalog.go.
use effexor_win_doctor.Prelude.{String, List, [], ◌∷◌}
use effexor_win_doctor.BootDoctor.Codes.{
  bcd_store_missing, bcd_store_ambiguous, bcd_store_unreadable, bcd_membership_unknown,
  bcd_windows_entry_missing, bcd_points_to_unknown_installation, bcd_cross_disk_mismatch,
  bitlocker_locked, bitlocker_status_unknown, bitlocker_recovery_material_required,
  bitlocker_blocks_boot_analysis, storage_health_critical, storage_health_warning,
  storage_health_unknown, storage_evidence_missing, unsafe_to_attempt_boot_repair,
  boot_topology_incomplete, boot_topology_ambiguous, boot_topology_conflicting,
  insufficient_evidence_for_repair_plan, technician_selection_required, boot_topology_consistent,
}
use effexor_win_doctor.BootDoctor.Catalog.Spec.{CodeSpec}

abbrev pub bcd_specs : List (String × CodeSpec)
bcd_specs =
    (
      bcd_store_missing,
      record {
        severity = "medium";
        confidence = "medium";
        title = "BCD store is missing";
        rationale = "No BCD store candidate was identified for the boot topology.";
        workflows = "boot.inspect_bcd_store" ∷ [];
      },
    )
    ∷ (
      bcd_store_ambiguous,
      record {
        severity = "medium";
        confidence = "low";
        title = "BCD store selection is ambiguous";
        rationale =
            "Multiple BCD store candidates or ambiguous BCD relations prevent a unique selection.";
        workflows = "boot.inspect_bcd_store" ∷ [];
      },
    )
    ∷ (
      bcd_store_unreadable,
      record {
        severity = "medium";
        confidence = "medium";
        title = "BCD store evidence is unreadable";
        rationale =
            "Evidence indicates the BCD store could not be read. Corruption is not asserted from absence alone.";
        workflows = "boot.inspect_bcd_store" ∷ [];
      },
    )
    ∷ (
      bcd_membership_unknown,
      record {
        severity = "medium";
        confidence = "low";
        title = "BCD membership relative to Windows is unknown";
        rationale = "BCD evidence does not prove membership for the selected Windows installation.";
        workflows = "boot.inspect_bcd_store" ∷ [];
      },
    )
    ∷ (
      bcd_windows_entry_missing,
      record {
        severity = "medium";
        confidence = "medium";
        title = "BCD Windows boot entry appears missing";
        rationale =
            "A BCD store is present but no boot_store_for_windows relation to a known installation is established.";
        workflows = "boot.inspect_bcd_store" ∷ "windows.inspect_installation" ∷ [];
      },
    )
    ∷ (
      bcd_points_to_unknown_installation,
      record {
        severity = "medium";
        confidence = "medium";
        title = "BCD points to an unknown Windows installation";
        rationale =
            "BCD relations reference a Windows target that is not present among topology candidates.";
        workflows = "boot.inspect_bcd_store" ∷ "windows.inspect_installation" ∷ [];
      },
    )
    ∷ (
      bcd_cross_disk_mismatch,
      record {
        severity = "critical";
        confidence = "high";
        title = "BCD store is on a mismatched disk";
        rationale =
            "BCD containment relations place the store outside the selected Windows/ESP disk chain.";
        workflows = "boot.inspect_bcd_store" ∷ "storage.inspect_partition_layout" ∷ [];
      },
    )
    ∷ []

abbrev pub bitlocker_and_storage_specs : List (String × CodeSpec)
bitlocker_and_storage_specs =
    (
      bitlocker_locked,
      record {
        severity = "high";
        confidence = "high";
        title = "BitLocker volume is locked";
        rationale =
            "BitLocker evidence reports a locked or inaccessible volume. Filesystem damage is not inferred from inaccessibility alone.";
        workflows = "bitlocker.inspect_inventory" ∷ [];
      },
    )
    ∷ (
      bitlocker_status_unknown,
      record {
        severity = "high";
        confidence = "low";
        title = "BitLocker status is unknown";
        rationale =
            "BitLocker evidence is present but lock/protection status is empty or unrecognized and is not treated as safe.";
        workflows = "bitlocker.inspect_inventory" ∷ [];
      },
    )
    ∷ (
      bitlocker_recovery_material_required,
      record {
        severity = "high";
        confidence = "medium";
        title = "BitLocker recovery material is required";
        rationale =
            "Locked BitLocker state blocks further boot-path inspection until recovery material is supplied out of band. Recovery secrets are never stored in Findings.";
        workflows = "bitlocker.inspect_inventory" ∷ [];
      },
    )
    ∷ (
      bitlocker_blocks_boot_analysis,
      record {
        severity = "high";
        confidence = "high";
        title = "BitLocker blocks boot analysis";
        rationale =
            "BitLocker inaccessibility prevents complete boot topology analysis of protected volumes.";
        workflows = "bitlocker.inspect_inventory" ∷ [];
      },
    )
    ∷ (
      storage_health_critical,
      record {
        severity = "critical";
        confidence = "high";
        title = "Storage health is critical";
        rationale =
            "Drive health evidence reports failed, unhealthy, or critical status. Boot repair must be treated as unsafe.";
        workflows = "storage.inspect_disk_health" ∷ [];
      },
    )
    ∷ (
      storage_health_warning,
      record {
        severity = "medium";
        confidence = "medium";
        title = "Storage health warning";
        rationale =
            "Drive health evidence reports a non-critical warning condition that lowers repair confidence.";
        workflows = "storage.inspect_disk_health" ∷ [];
      },
    )
    ∷ (
      storage_health_unknown,
      record {
        severity = "high";
        confidence = "low";
        title = "Storage health is unknown";
        rationale =
            "Storage health status is missing or unrecognized and is not treated as healthy.";
        workflows = "storage.inspect_disk_health" ∷ [];
      },
    )
    ∷ (
      storage_evidence_missing,
      record {
        severity = "high";
        confidence = "low";
        title = "Storage health evidence is missing";
        rationale =
            "No drive-health evidence records were available for topology eligibility diagnostics.";
        workflows = "storage.inspect_disk_health" ∷ [];
      },
    )
    ∷ []

abbrev pub topology_specs : List (String × CodeSpec)
topology_specs =
    (
      unsafe_to_attempt_boot_repair,
      record {
        severity = "critical";
        confidence = "high";
        title = "Unsafe to attempt boot repair";
        rationale =
            "Critical storage health or cross-disk destructive-risk topology makes boot repair unsafe based on current evidence.";
        workflows = "storage.inspect_disk_health" ∷ "case.verify_store_integrity" ∷ [];
      },
    )
    ∷ (
      boot_topology_incomplete,
      record {
        severity = "medium";
        confidence = "medium";
        title = "Boot topology is incomplete";
        rationale =
            "Required boot roles or relations are missing, so a repair plan cannot be justified yet.";
        workflows = "boot.inspect_efi_layout" ∷ "windows.inspect_installation" ∷ [];
      },
    )
    ∷ (
      boot_topology_ambiguous,
      record {
        severity = "medium";
        confidence = "low";
        title = "Boot topology is ambiguous";
        rationale =
            "Multiple candidates or ambiguous relations prevent selecting a single boot chain.";
        workflows = [];
      },
    )
    ∷ (
      boot_topology_conflicting,
      record {
        severity = "high";
        confidence = "high";
        title = "Boot topology evidence conflicts";
        rationale =
            "Topology ambiguities or firmware conflicts contradict a single coherent boot chain.";
        workflows = "boot.inspect_firmware_mode" ∷ [];
      },
    )
    ∷ (
      insufficient_evidence_for_repair_plan,
      record {
        severity = "medium";
        confidence = "low";
        title = "Insufficient evidence for a repair plan";
        rationale =
            "Current evidence and topology blockers are insufficient to justify any typed repair plan.";
        workflows = "case.verify_store_integrity" ∷ [];
      },
    )
    ∷ (
      technician_selection_required,
      record {
        severity = "medium";
        confidence = "medium";
        title = "Technician selection is required";
        rationale =
            "Automatic topology selection is unavailable; a complete connected technician selection is required.";
        workflows = [];
      },
    )
    ∷ (
      boot_topology_consistent,
      record {
        severity = "info";
        confidence = "high";
        title = "Boot topology is consistent";
        rationale =
            "Topology roles are unique, relations are proven or strong, firmware is consistent, BitLocker does not block, and storage health is known and non-critical.";
        workflows = [];
      },
    )
    ∷ []
