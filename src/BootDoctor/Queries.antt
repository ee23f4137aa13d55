-- ===== src/BootDoctor/Queries.antt =====
-- What the boot doctor reads off a topology, internal/recovery/bootdoctor/analyze.go: the functions
-- below `collectDrafts`. A set of texts is the list of its members.
use effexor_win_doctor.Prelude.{
  ℕ, String, Bool, true, false, Option, none, some, List, [], ◌∷◌, ◌++◌, ◌&&◌, ◌||◌, not, ◌==◌, eqb,
  leb, ◌-◌, is_empty, any, elems, if◌then◌else◌, contains_string, trim_space, codes, map,
}
use effexor_win_doctor.Domain.Documents.{Target}
use effexor_win_doctor.Domain.Topology.{
  WindowsBootTopology, TopologyCandidate, TopologyRelation, TopologySelection, TopologyAmbiguity,
  confidence_ambiguous, confidence_unknown, role_firmware, relation_contains,
  relation_hosts_windows, relation_hosts_esp, relation_contains_bcd_store,
  relation_boot_store_for_windows,
}
use effexor_win_doctor.Domain.Topology.Validation.{selected_ids}
use effexor_win_doctor.BootDoctor.Identity.{unique_sorted}

abbrev pub relations_of : WindowsBootTopology → List TopologyRelation
relations_of topo = elems topo.relations

abbrev pub ambiguities_of : WindowsBootTopology → List TopologyAmbiguity
ambiguities_of topo = elems topo.ambiguities

-- `toSet`
unfoldable pub to_set : List String → List String
to_set [] = []
to_set (v ∷ vs) = let rest = to_set vs in if v == "" then rest else v ∷ rest

targets_with_role : String → List TopologyCandidate → List String
targets_with_role role [] = []
targets_with_role role (c ∷ cs) =
    let rest = targets_with_role role cs in if c.role == role then c.target_id ∷ rest else rest

unfoldable pub candidates_by_role : WindowsBootTopology → String → List String
unfolding targets_with_role
candidates_by_role topo role = unique_sorted (targets_with_role role (elems topo.candidates))

unfoldable pub candidate_targets : WindowsBootTopology → List String
candidate_targets topo =
    unique_sorted (map (λ (c : TopologyCandidate). c.target_id) (elems topo.candidates))

unfoldable pub firmware_targets : WindowsBootTopology → List String
firmware_targets topo = candidates_by_role topo role_firmware

concat_refs : List (Option (List String)) → List String
concat_refs [] = []
concat_refs (refs ∷ more) = elems refs ++ concat_refs more

unfoldable pub topology_evidence_refs : WindowsBootTopology → List String
unfolding concat_refs
topology_evidence_refs topo = unique_sorted (
    concat_refs (map (λ (c : TopologyCandidate). c.evidence_refs) (elems topo.candidates))
    ++ (concat_refs (map (λ (r : TopologyRelation). r.evidence_refs) (relations_of topo))
        ++ concat_refs (map (λ (a : TopologyAmbiguity). a.evidence_refs) (ambiguities_of topo))))

-- Membership in `ambiguityCodes`.
abbrev pub has_ambiguity : WindowsBootTopology → String → Bool
has_ambiguity topo code = any (λ (a : TopologyAmbiguity). a.code == code) (ambiguities_of topo)

targets_with_code : String → List TopologyAmbiguity → List String
targets_with_code code [] = []
targets_with_code code (a ∷ more) =
    let rest = targets_with_code code more in
    if a.code == code then elems a.target_ids ++ rest else rest

unfoldable pub targets_for_ambiguity : WindowsBootTopology → String → List String
unfolding targets_with_code
targets_for_ambiguity topo code = unique_sorted (targets_with_code code (ambiguities_of topo))

abbrev pub has_limitation : WindowsBootTopology → String → Bool
has_limitation topo code = contains_string (elems topo.limitations) code

unfoldable pub has_drive_health_ambiguity : WindowsBootTopology → Bool
has_drive_health_ambiguity topo =
    has_ambiguity topo "storage_health_unknown" || has_ambiguity topo "storage_health_unsafe"

abbrev is_proven : TopologyRelation → Bool
is_proven r = not (r.confidence == confidence_ambiguous) && not (r.confidence == confidence_unknown)

unfoldable pub has_relation_type : WindowsBootTopology → String → Bool
has_relation_type topo type_ =
    any (λ (r : TopologyRelation). r.relation_type == type_ && is_proven r) (relations_of topo)

unfoldable pub has_bcd_for_windows : WindowsBootTopology → String → Bool
has_bcd_for_windows topo windows_id =
    any
      (λ (r : TopologyRelation).
        r.relation_type == relation_boot_store_for_windows
        && r.to_target_id == windows_id
        && is_proven r)
      (relations_of topo)

bcd_points : List TopologyRelation → List String
bcd_points [] = []
bcd_points (r ∷ rs) =
    let rest = bcd_points rs in
    if r.relation_type == relation_boot_store_for_windows
    then r.from_target_id ∷ r.to_target_id ∷ rest
    else rest

bcd_unknown : List String → List TopologyRelation → List String
bcd_unknown windows [] = []
bcd_unknown windows (r ∷ rs) =
    let rest = bcd_unknown windows rs in
    if r.relation_type == relation_boot_store_for_windows
      && not (contains_string windows r.to_target_id)
    then r.to_target_id ∷ rest
    else rest

-- `bcdUnknownWindows`: the ends of the relations, and the installations that are unknown.
unfoldable pub bcd_unknown_windows : WindowsBootTopology → List String → List String × List String
unfolding bcd_points bcd_unknown
bcd_unknown_windows topo windows = (
  unique_sorted (bcd_points (relations_of topo)),
  unique_sorted (bcd_unknown windows (relations_of topo)),
)

-- The loops of `hasCrossDiskESP` over a selection: the ESP is on the system disk; it is on another.
selected_same_disk : TopologySelection → List TopologyRelation → Bool
selected_same_disk s rs =
    any
      (λ (r : TopologyRelation).
        r.relation_type == relation_hosts_esp
        && r.from_target_id == s.system_disk_target_id
        && r.to_target_id == s.esp_target_id)
      rs

selected_other_disk : TopologySelection → List TopologyRelation → Bool
selected_other_disk s rs =
    any
      (λ (r : TopologyRelation).
        r.relation_type == relation_hosts_esp
        && r.to_target_id == s.esp_target_id
        && not (r.from_target_id == s.system_disk_target_id))
      rs

-- The sources of the relations that satisfy a test.
sources : (TopologyRelation → Bool) → List TopologyRelation → List String
sources test [] = []
sources test (r ∷ rs) =
    let rest = sources test rs in if test r then r.from_target_id ∷ rest else rest

win_parts : List TopologyRelation → List String
unfolding sources
win_parts rs = sources (λ r. r.relation_type == relation_hosts_windows) rs

win_disks : List TopologyRelation → List String
unfolding sources win_parts
win_disks rs =
    if is_empty (win_parts rs)
    then sources (λ r. r.relation_type == relation_contains) rs
    else sources
        (λ r. r.relation_type == relation_contains && contains_string (win_parts rs) r.to_target_id)
        rs

-- Without a selection: an ESP is on a disk that is none of the Windows disks.
unselected_cross_disk : List TopologyRelation → Bool
unfolding win_disks
unselected_cross_disk rs =
    not (is_empty (win_disks rs))
    && any
        (λ (r : TopologyRelation).
          r.relation_type == relation_hosts_esp
          && not (contains_string (win_disks rs) r.from_target_id))
        rs

unfoldable pub has_cross_disk_esp : WindowsBootTopology → Bool
unfolding selected_same_disk selected_other_disk unselected_cross_disk
has_cross_disk_esp topo =
    let s = topo.selection in
    let rs = relations_of topo in
    let selected = not (s.esp_target_id == "") && not (s.system_disk_target_id == "") in
    if selected && selected_same_disk s rs
    then false
    else if selected && selected_other_disk s rs
    then true
    else unselected_cross_disk rs

unfoldable pub has_bcd_cross_disk : WindowsBootTopology → Bool
has_bcd_cross_disk topo =
    let esp = topo.selection.esp_target_id in
    let part = topo.selection.windows_partition_target_id in
    any
      (λ (r : TopologyRelation).
        r.relation_type == relation_contains_bcd_store
        && not (esp == "")
        && not (r.from_target_id == esp)
        && not (part == "")
        && not (r.from_target_id == part))
      (relations_of topo)

-- `byID[id]` of `targetsByID`: the last target with the id.
unfoldable pub target_by_id : List Target → String → Option Target → Option Target
target_by_id [] id found = found
target_by_id (t ∷ ts) id found = target_by_id ts id (if t.target_id == id then some t else found)

-- `disks[0]` if it is the only one.
only_disk : List String → String
only_disk (disk ∷ []) = disk
only_disk _ = ""

unfoldable pub preferred_disk : WindowsBootTopology → List String → String
unfolding only_disk
preferred_disk topo disks =
    if not (topo.selection.system_disk_target_id == "")
    then topo.selection.system_disk_target_id
    else only_disk disks

locator : List (String × String) → String → String
locator [] key = ""
locator ((k, v) ∷ m) key = if k == key then v else locator m key

-- `strings.ToUpper` on code points, as far as it can give `GPT` or `MBR`.
abbrev upper : ℕ → ℕ
upper c = if leb b'a' c && leb c b'z' then c - 32 else c

same_codes : List ℕ → List ℕ → Bool
same_codes [] [] = true
same_codes [] (d ∷ ds) = false
same_codes (c ∷ cs) [] = false
same_codes (c ∷ cs) (d ∷ ds) = eqb c d && same_codes cs ds

abbrev is_style : String → String → Bool
unfolding same_codes
is_style want raw = same_codes (map upper (codes (trim_space raw))) (codes want)

style_of : Option Target → String
unfolding locator same_codes
style_of none = ""
style_of (some t) =
    let raw = locator (elems t.runtime_locators) "partition_style" in
    if is_style "GPT" raw then "GPT" else if is_style "MBR" raw then "MBR" else ""

unfoldable pub disk_style : List Target → String → String
unfolding style_of
disk_style targets disk_id =
    if disk_id == "" then "" else style_of (target_by_id targets disk_id none)

unfoldable pub has_conflicting_ambiguity : WindowsBootTopology → Bool
has_conflicting_ambiguity topo =
    any
      (λ (a : TopologyAmbiguity).
        a.code == "unsupported_layout"
        || a.code == "storage_health_unsafe"
        || a.code == "bitlocker_inaccessible"
        || a.code == "bitlocker_status_unknown")
      (ambiguities_of topo)

unfoldable pub selected_targets : WindowsBootTopology → List String
selected_targets topo = unique_sorted (selected_ids topo.selection)

unfoldable pub selected_or_all : WindowsBootTopology → List String → List String
selected_or_all topo all_targets =
    if is_empty (selected_targets topo) then all_targets else selected_targets topo
