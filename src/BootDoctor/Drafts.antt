-- ===== src/BootDoctor/Drafts.antt =====
-- The findings that a topology calls for, before suppression: `collectDrafts` of
-- internal/recovery/bootdoctor/analyze.go. Each call of `add` is an entry of a list, in the order of
-- the calls, and `add` is folded over them; no call has extra limitations.
pub mod Safety
pub mod Catalogued
use effexor_win_doctor.Prelude.{
  String, Bool, true, false, Option, none, some, List, [], ◌∷◌, ◌++◌, ◌&&◌, ◌||◌, not, ◌==◌, eqb,
  leb, ltb, length, is_empty, elems, if◌then◌else◌, contains_string,
}
use effexor_win_doctor.Domain.Documents.{Target}
use effexor_win_doctor.Domain.Topology.{
  WindowsBootTopology, firmware_uefi, firmware_bios, firmware_unknown, firmware_conflicting,
  role_windows_installation, role_windows_partition, role_system_disk, role_efi_system_partition,
  role_bcd_store, relation_hosts_windows, relation_hosts_esp, selection_none,
}
use effexor_win_doctor.BootDoctor.Codes.{
  firmware_mode_unknown, firmware_mode_conflicting, uefi_with_mbr_system_disk,
  legacy_with_gpt_layout, unsupported_legacy_boot_topology, windows_installation_missing,
  multiple_windows_installations, windows_installation_ambiguous,
  windows_partition_relation_unknown, windows_system_disk_relation_unknown,
  windows_installation_incomplete, efi_system_partition_missing, multiple_efi_system_partitions,
  efi_system_partition_ambiguous, efi_system_partition_cross_disk,
  efi_system_partition_relation_unknown, efi_system_partition_unreadable, bcd_store_missing,
  bcd_store_ambiguous, bcd_store_unreadable, bcd_membership_unknown, bcd_windows_entry_missing,
  bcd_points_to_unknown_installation, bcd_cross_disk_mismatch, bitlocker_locked,
  bitlocker_status_unknown, bitlocker_recovery_material_required, bitlocker_blocks_boot_analysis,
  storage_health_critical, storage_health_warning, storage_health_unknown, storage_evidence_missing,
  unsafe_to_attempt_boot_repair, boot_topology_incomplete, boot_topology_ambiguous,
  boot_topology_conflicting, insufficient_evidence_for_repair_plan, technician_selection_required,
  boot_topology_consistent,
}
use effexor_win_doctor.BootDoctor.Suppress.{Draft, Drafts}
use effexor_win_doctor.BootDoctor.Queries.{
  to_set, candidates_by_role, candidate_targets, firmware_targets, topology_evidence_refs,
  has_ambiguity, targets_for_ambiguity, has_limitation, has_drive_health_ambiguity,
  has_relation_type, has_bcd_for_windows, bcd_unknown_windows, has_cross_disk_esp,
  has_bcd_cross_disk, preferred_disk, disk_style, has_conflicting_ambiguity, selected_targets,
  selected_or_all,
}

-- The arguments of a call of `add`, whose evidence is always that of the topology.
pub record Added : Type 0 where
  pub code : String
  pub targets : List String
  pub insuff : Bool

-- `out[code]`, or the zero draft.
draft_of : Drafts → String → Draft
draft_of [] code = record { targets = []; evidence = []; extra_lim = []; insuff = false }
draft_of ((c, d) ∷ ds) code = if c == code then d else draft_of ds code

-- `out[code] = d`
put_draft : Drafts → String → Draft → Drafts
put_draft [] code d = (code, d) ∷ []
put_draft ((c, e) ∷ ds) code d =
    let rest = put_draft ds code d in if c == code then (c, d) ∷ ds else (c, e) ∷ rest

merged : String → List String → Draft → Added → Draft
merged topology_evidence evidence seen a = record {
  targets = seen.targets ++ a.targets;
  evidence =
      seen.evidence
      ++ (evidence ++ (if topology_evidence == "" then [] else topology_evidence ∷ []));
  extra_lim = seen.extra_lim;
  insuff = seen.insuff || a.insuff;
}

unfoldable pub add : String → List String → Drafts → Added → Drafts
unfolding draft_of put_draft merged
add topology_evidence evidence out a =
    if a.code == ""
    then out
    else put_draft out a.code (merged topology_evidence evidence (draft_of out a.code) a)

unfoldable pub add_all : String → List String → Drafts → List Added → Drafts
unfolding add
add_all topology_evidence evidence out [] = out
add_all topology_evidence evidence out (a ∷ more) =
    add_all topology_evidence evidence (add topology_evidence evidence out a) more

abbrev certain : String → List String → Added
certain code targets = record { code = code; targets = targets; insuff = false }

abbrev insufficient : String → List String → Added
insufficient code targets = record { code = code; targets = targets; insuff = true }

abbrev pub when : Bool → List Added → List Added
when test calls = if test then calls else []

-- `windows[0]`
first_of : List String → String
first_of [] = ""
first_of (w ∷ ws) = w

-- What the sections of `collectDrafts` share.
module _ (topo : WindowsBootTopology) (targets : List Target) where
  abbrev blockers : List String
  blockers = to_set (elems topo.mutation_eligibility.blockers)

  abbrev pub has_block : String → Bool
  has_block code = contains_string blockers code

  abbrev windows : List String
  windows = candidates_by_role topo role_windows_installation

  abbrev parts : List String
  parts = candidates_by_role topo role_windows_partition

  abbrev disks : List String
  disks = candidates_by_role topo role_system_disk

  abbrev esps : List String
  esps = candidates_by_role topo role_efi_system_partition

  abbrev bcds : List String
  bcds = candidates_by_role topo role_bcd_store

  unfoldable pub firmware_calls : List Added
  firmware_calls =
      let style = disk_style targets (preferred_disk topo disks) in
      if topo.firmware_mode == firmware_unknown
      then certain firmware_mode_unknown (firmware_targets topo) ∷ []
      else if topo.firmware_mode == firmware_conflicting
      then certain firmware_mode_conflicting (firmware_targets topo)
        ∷ certain boot_topology_conflicting (candidate_targets topo)
        ∷ []
      else if topo.firmware_mode == firmware_bios
      then certain unsupported_legacy_boot_topology (firmware_targets topo ++ disks)
        ∷ when (style == "GPT")
            (certain legacy_with_gpt_layout (firmware_targets topo ++ disks) ∷ [])
      else when (topo.firmware_mode == firmware_uefi) (
          when (style == "MBR" || has_block "disk_not_gpt")
            (certain uefi_with_mbr_system_disk (firmware_targets topo ++ disks) ∷ []))

  unfoldable pub windows_calls : List Added
  windows_calls =
      (if is_empty windows || has_block "windows_missing"
        then record { code = windows_installation_missing; targets = []; insuff = is_empty windows }
          ∷ []
        else when (ltb 1 (length windows) || has_block "windows_ambiguous") (
            certain multiple_windows_installations windows
            ∷ certain windows_installation_ambiguous windows
            ∷ certain boot_topology_ambiguous windows
            ∷ []))
      ++ (when
            (has_block "windows_partition_unresolved" || (eqb (length windows) 1 && is_empty parts))
            (insufficient windows_partition_relation_unknown (windows ++ parts)
              ∷ insufficient windows_installation_incomplete (windows ++ parts)
              ∷ [])
          ++ (when
                (has_block "system_disk_unresolved" || (eqb (length windows) 1 && is_empty disks))
                (insufficient windows_system_disk_relation_unknown (windows ++ disks)
                  ∷ insufficient windows_installation_incomplete (windows ++ disks)
                  ∷ [])
              ++ when
                  (leb 1 (length windows) && not (has_relation_type topo relation_hosts_windows))
                  (insufficient windows_partition_relation_unknown (windows ++ parts) ∷ [])))

  unfoldable pub esp_calls : List Added
  esp_calls =
      (if is_empty esps || has_block "esp_missing"
        then record { code = efi_system_partition_missing; targets = []; insuff = is_empty esps }
          ∷ []
        else when (ltb 1 (length esps) || has_block "esp_ambiguous") (
            certain multiple_efi_system_partitions esps
            ∷ certain efi_system_partition_ambiguous esps
            ∷ certain boot_topology_ambiguous esps
            ∷ []))
      ++ (when (has_ambiguity topo "esp_cross_disk" || has_cross_disk_esp topo) (
            certain efi_system_partition_cross_disk (esps ++ disks)
            ∷ certain unsafe_to_attempt_boot_repair (esps ++ disks)
            ∷ [])
          ++ (when (leb 1 (length esps) && not (has_relation_type topo relation_hosts_esp))
                (insufficient efi_system_partition_relation_unknown (esps ++ disks) ∷ [])
              ++ when (has_ambiguity topo "esp_unreadable")
                  (certain efi_system_partition_unreadable esps ∷ [])))

  unfoldable pub bcd_calls : List Added
  unfolding first_of
  bcd_calls =
      let (points, unknown) = bcd_unknown_windows topo (to_set windows) in
      (if has_block "bcd_ambiguous" || ltb 1 (length bcds) || has_ambiguity topo "bcd_ambiguous"
        then certain bcd_store_ambiguous bcds ∷ certain boot_topology_ambiguous bcds ∷ []
        else when
            ((has_block "bcd_missing"
                || has_ambiguity topo "bcd_missing"
                || (is_empty bcds && not (topo.selection.source == selection_none)))
              && is_empty bcds)
            (insufficient bcd_store_missing [] ∷ []))
      ++ (when (has_ambiguity topo "bcd_unreadable") (certain bcd_store_unreadable bcds ∷ [])
          ++ (when
                (leb 1 (length bcds)
                  && eqb (length windows) 1
                  && not (has_bcd_for_windows topo (first_of windows)))
                (insufficient bcd_membership_unknown (bcds ++ windows)
                  ∷ insufficient bcd_windows_entry_missing (bcds ++ windows)
                  ∷ [])
              ++ (when (not (is_empty unknown))
                    (certain bcd_points_to_unknown_installation (bcds ++ points) ∷ [])
                  ++ when (has_bcd_cross_disk topo) (
                      certain bcd_cross_disk_mismatch (bcds ++ disks)
                      ∷ certain unsafe_to_attempt_boot_repair (bcds ++ disks)
                      ∷ []))))

  unfoldable pub bitlocker_calls : List Added
  bitlocker_calls =
      let inaccessible = targets_for_ambiguity topo "bitlocker_inaccessible" in
      let unknown = targets_for_ambiguity topo "bitlocker_status_unknown" in
      when (has_block "bitlocker_inaccessible" || has_ambiguity topo "bitlocker_inaccessible") (
        certain bitlocker_locked inaccessible
        ∷ certain bitlocker_recovery_material_required inaccessible
        ∷ certain bitlocker_blocks_boot_analysis inaccessible
        ∷ [])
      ++ when
          (has_block "bitlocker_status_unknown" || has_ambiguity topo "bitlocker_status_unknown")
          (insufficient bitlocker_status_unknown unknown
            ∷ insufficient bitlocker_blocks_boot_analysis unknown
            ∷ [])

  unfoldable pub storage_calls : List Added
  storage_calls =
      when (has_block "storage_health_unsafe" || has_ambiguity topo "storage_health_unsafe")
        (certain storage_health_critical disks ∷ certain unsafe_to_attempt_boot_repair disks ∷ [])
      ++ (when (has_ambiguity topo "storage_health_warning")
            (certain storage_health_warning disks ∷ [])
          ++ when (has_block "storage_health_unknown") (
              when
                (has_limitation topo "storage_health_unknown"
                  && not (has_drive_health_ambiguity topo))
                (insufficient storage_evidence_missing disks ∷ [])
              ++ insufficient storage_health_unknown disks ∷ []))

  -- `incomplete`
  unfoldable pub is_incomplete : Bool
  is_incomplete =
      not topo.mutation_eligibility.eligible
      || topo.selection.source == selection_none
      || topo.selection.windows_target_id == ""
      || topo.selection.windows_partition_target_id == ""
      || topo.selection.system_disk_target_id == ""
      || topo.selection.esp_target_id == ""

  unfoldable pub completeness_calls : List Added
  completeness_calls =
      let all_targets = candidate_targets topo in
      when
        ((has_block "technician_selection_required" || topo.selection.source == selection_none)
          && not topo.mutation_eligibility.eligible)
        (certain technician_selection_required all_targets ∷ [])
      ++ (when (has_block "evidence_incomplete" || has_block "relation_runtime_only") (
            insufficient boot_topology_incomplete all_targets
            ∷ insufficient insufficient_evidence_for_repair_plan all_targets
            ∷ [])
          ++ (when (has_block "unsupported_layout")
                (certain boot_topology_conflicting all_targets ∷ [])
              ++ when is_incomplete (
                  insufficient boot_topology_incomplete (selected_or_all topo all_targets)
                  ∷ insufficient insufficient_evidence_for_repair_plan
                      (selected_or_all topo all_targets)
                  ∷ [])))

  -- The healthy baseline.
  unfoldable pub is_healthy : Bool
  is_healthy =
      topo.mutation_eligibility.eligible
      && not (topo.selection.source == selection_none)
      && topo.firmware_mode == firmware_uefi
      && is_empty blockers
      && not (has_conflicting_ambiguity topo)

  unfoldable pub consistency_calls : List Added
  consistency_calls =
      when is_healthy (certain boot_topology_consistent (selected_targets topo) ∷ [])

  unfoldable pub calls : List Added
  calls =
      firmware_calls
      ++ (windows_calls
          ++ (esp_calls
              ++ (bcd_calls
                  ++ (bitlocker_calls
                      ++ (storage_calls ++ (completeness_calls ++ consistency_calls))))))

  unfoldable pub collect_drafts : String → Drafts
  collect_drafts topology_evidence =
      add_all topology_evidence (topology_evidence_refs topo) [] calls
