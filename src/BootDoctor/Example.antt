-- ===== src/BootDoctor/Example.antt =====
-- A Windows system that boots by UEFI from one disk, with a target for each role of its topology.
use effexor_win_doctor.Prelude.{String, true, some, List, [], ◌∷◌, map}
use effexor_win_doctor.Domain.Documents.{Target}
use effexor_win_doctor.Domain.Topology.{
  WindowsBootTopology, TopologyCandidate, TopologyRelation, firmware_uefi,
  role_windows_installation, role_windows_partition, role_system_disk, role_efi_system_partition,
  role_bcd_store, relation_contains, relation_hosts_windows, relation_hosts_esp,
  relation_contains_bcd_store, relation_boot_store_for_windows,
}
use effexor_win_doctor.BootDoctor.Analyze.{Input}

abbrev pub machine_target : String → String → Target
machine_target id type_ = record {
  schema_name = "target";
  schema_version = "1.0.0";
  target_id = id;
  target_type = type_;
  discovered_at = "2026-07-29T12:00:00Z";
  display_name = type_;
  stable_identity = some (("guid", id) ∷ []);
  runtime_locators = some (("partition_style", "gpt") ∷ []);
  capabilities = some [];
  limitations = some [];
}

abbrev pub machine_targets : List Target
machine_targets =
    machine_target "target-windows-0001" "windows_installation"
    ∷ machine_target "target-windows-part-1" "partition"
    ∷ machine_target "target-disk-0001" "disk"
    ∷ machine_target "target-esp-0001" "partition"
    ∷ machine_target "target-bcd-0001" "boot_store"
    ∷ []

abbrev pub machine_target_ids : List String
machine_target_ids = map (λ (t : Target). t.target_id) machine_targets

abbrev pub topology_evidence : String
topology_evidence = "evidence-bbbbbbbbbbbbbbbbbbbbbbbb"

abbrev candidate : String → String → TopologyCandidate
candidate role target = record {
  candidate_id = role;
  role = role;
  target_id = target;
  confidence = "proven";
  evidence_refs = some (topology_evidence ∷ []);
  rationale_codes = some ("read" ∷ []);
  limitations = some [];
}

abbrev relation : String → String → String → TopologyRelation
relation type_ from to = record {
  relation_id = type_;
  relation_type = type_;
  from_target_id = from;
  to_target_id = to;
  confidence = "proven";
  evidence_refs = some (topology_evidence ∷ []);
  rationale_codes = some ("read" ∷ []);
  limitations = some [];
}

-- The disk that holds the ESP is given.
abbrev pub machine_with_esp_on : String → WindowsBootTopology
machine_with_esp_on disk = record {
  schema_name = "windows-boot-topology";
  schema_version = "1.0.0";
  topology_id = "topology-eeeeeeeeeeeeeeeeeeeeeeee";
  case_id = "case-aaaaaaaaaaaaaaaaaaaaaaaa";
  resolver_id = "target-resolver";
  resolver_version = "1.0.0";
  source_commit_id = "commit-000000000000000000000001";
  generated_at = "2026-07-29T12:00:00Z";
  firmware_mode = firmware_uefi;
  candidates = some (
      candidate role_windows_installation "target-windows-0001"
      ∷ candidate role_windows_partition "target-windows-part-1"
      ∷ candidate role_system_disk "target-disk-0001"
      ∷ candidate role_efi_system_partition "target-esp-0001"
      ∷ candidate role_bcd_store "target-bcd-0001"
      ∷ []);
  relations = some (
      relation relation_contains "target-disk-0001" "target-windows-part-1"
      ∷ relation relation_hosts_windows "target-windows-part-1" "target-windows-0001"
      ∷ relation relation_hosts_esp disk "target-esp-0001"
      ∷ relation relation_contains_bcd_store "target-esp-0001" "target-bcd-0001"
      ∷ relation relation_boot_store_for_windows "target-bcd-0001" "target-windows-0001"
      ∷ []);
  selection = record {
    source = "automatic";
    windows_target_id = "target-windows-0001";
    windows_partition_target_id = "target-windows-part-1";
    system_disk_target_id = "target-disk-0001";
    esp_target_id = "target-esp-0001";
    bcd_target_id = "target-bcd-0001";
  };
  ambiguities = some [];
  limitations = some [];
  mutation_eligibility = record {
    eligible = true;
    basis = "diagnostic_evidence_only";
    blockers = some [];
  };
}

abbrev pub machine : WindowsBootTopology
machine = machine_with_esp_on "target-disk-0001"

abbrev pub input_on : WindowsBootTopology → Input
input_on topo = record {
  case_id = "case-aaaaaaaaaaaaaaaaaaaaaaaa";
  topology = topo;
  topology_evidence_id = topology_evidence;
  targets = machine_targets;
  known_evidence_ids = topology_evidence ∷ [];
  known_target_ids = machine_target_ids;
}

-- The digest of a test.
abbrev pub digest : String → String
digest text = "0123456789abcdef0123456789abcdef0123456789abcdef0123456789abcdef"
