-- ===== src/BootDoctor/Drafts/Safety.antt =====
-- Which of the drafts of internal/recovery/bootdoctor/analyze.go decide whether a repair may be tried.
use effexor_win_doctor.Prelude.{
  String, ◌≡◌, Bool, true, false, ◌||◌, ◌==◌, is_some, List, [], ◌∷◌, any, any-append, eq_iff,
  arith,
}
use effexor_win_doctor.Domain.Documents.{Target}
use effexor_win_doctor.Domain.Topology.{WindowsBootTopology}
use effexor_win_doctor.BootDoctor.Codes.{
  unsafe_to_attempt_boot_repair, boot_topology_consistent, efi_system_partition_cross_disk,
  bcd_cross_disk_mismatch, storage_health_critical, boot_topology_incomplete,
}
use effexor_win_doctor.BootDoctor.Suppress.{Draft, Drafts}
use effexor_win_doctor.BootDoctor.Suppress.Kept.{found}
use effexor_win_doctor.BootDoctor.Queries.{
  has_ambiguity, has_cross_disk_esp, has_bcd_cross_disk, topology_evidence_refs,
}
use effexor_win_doctor.BootDoctor.Drafts.{
  Added, put_draft, draft_of, merged, add, add_all, has_block, firmware_calls, windows_calls,
  esp_calls, bcd_calls, bitlocker_calls, storage_calls, completeness_calls, consistency_calls,
  calls, collect_drafts, is_healthy, is_incomplete,
}

-- Is a code among the calls?
unfoldable pub calls_for : List Added → String → Bool
calls_for cs code = any (λ (a : Added). a.code == code) cs

found-put_draft :
    (ds : Drafts) (c code : String) (d : Draft)
    → is_some (found (put_draft ds c d) code) ≡ is_some (found ds code) || c == code
unfolding found put_draft
found-put_draft [] c code d = ground arith
found-put_draft ((b, e) ∷ ds) c code d =
    ground (arith, eq_iff b c, eq_iff b code, eq_iff c code, found-put_draft ds c code d)

found-add :
    (ev : String) (es : List String) (out : Drafts) (a : Added) (code : String)
    → code == "" ≡ false
    → is_some (found (add ev es out a) code) ≡ is_some (found out code) || a.code == code
unfolding add
found-add ev es out a code h = ground (
  arith,
  eq_iff a.code "",
  eq_iff a.code code,
  eq_iff code "",
  found-put_draft out a.code code (merged ev es (draft_of out a.code) a),
)

found-add_all :
    (ev : String) (es : List String) (out : Drafts) (cs : List Added) (code : String)
    → code == "" ≡ false
    → is_some (found (add_all ev es out cs) code) ≡ is_some (found out code) || calls_for cs code
unfolding add_all calls_for
found-add_all ev es out [] code h = ground arith
found-add_all ev es out (a ∷ cs) code h =
    ground (arith, found-add_all ev es (add ev es out a) cs code h, found-add ev es out a code h)

-- The three grounds for an unsafe repair.
unfoldable pub storage_unsafe : WindowsBootTopology → List Target → Bool
storage_unsafe topo ts =
    has_block topo ts "storage_health_unsafe" || has_ambiguity topo "storage_health_unsafe"

unfoldable pub esp_on_other_disk : WindowsBootTopology → Bool
esp_on_other_disk topo = has_ambiguity topo "esp_cross_disk" || has_cross_disk_esp topo

module _ (topo : WindowsBootTopology) (ts : List Target) where
  firmware_quiet :
      (calls_for (firmware_calls topo ts) unsafe_to_attempt_boot_repair ≡ false)
      × (calls_for (firmware_calls topo ts) boot_topology_consistent ≡ false)
  unfolding calls_for firmware_calls
  firmware_quiet = (ground arith, ground arith)

  windows_quiet :
      (calls_for (windows_calls topo ts) unsafe_to_attempt_boot_repair ≡ false)
      × (calls_for (windows_calls topo ts) boot_topology_consistent ≡ false)
  unfolding calls_for windows_calls
  windows_quiet = (ground arith, ground arith)

  bitlocker_quiet :
      (calls_for (bitlocker_calls topo ts) unsafe_to_attempt_boot_repair ≡ false)
      × (calls_for (bitlocker_calls topo ts) boot_topology_consistent ≡ false)
  unfolding calls_for bitlocker_calls
  bitlocker_quiet = (ground arith, ground arith)

  completeness_quiet :
      (calls_for (completeness_calls topo ts) unsafe_to_attempt_boot_repair ≡ false)
      × (calls_for (completeness_calls topo ts) boot_topology_consistent ≡ false)
  unfolding calls_for completeness_calls
  completeness_quiet = (ground arith, ground arith)

  esp_unsafe :
      (calls_for (esp_calls topo ts) unsafe_to_attempt_boot_repair ≡ esp_on_other_disk topo)
      × (calls_for (esp_calls topo ts) boot_topology_consistent ≡ false)
  unfolding calls_for esp_calls esp_on_other_disk
  esp_unsafe = (ground arith, ground arith)

  bcd_unsafe :
      (calls_for (bcd_calls topo ts) unsafe_to_attempt_boot_repair ≡ has_bcd_cross_disk topo)
      × (calls_for (bcd_calls topo ts) boot_topology_consistent ≡ false)
  unfolding calls_for bcd_calls
  bcd_unsafe = (ground arith, ground arith)

  storage_unsafe_lem :
      (calls_for (storage_calls topo ts) unsafe_to_attempt_boot_repair ≡ storage_unsafe topo ts)
      × (calls_for (storage_calls topo ts) boot_topology_consistent ≡ false)
  unfolding calls_for storage_calls storage_unsafe
  storage_unsafe_lem = (ground arith, ground arith)

  healthy_only :
      (calls_for (consistency_calls topo ts) unsafe_to_attempt_boot_repair ≡ false)
      × (calls_for (consistency_calls topo ts) boot_topology_consistent ≡ is_healthy topo ts)
  unfolding calls_for consistency_calls
  healthy_only = (ground arith, ground arith)

  calls_for-calls :
      (code : String)
      → calls_for (calls topo ts) code
        ≡ calls_for (firmware_calls topo ts) code
          || (calls_for (windows_calls topo ts) code
              || (calls_for (esp_calls topo ts) code
                  || (calls_for (bcd_calls topo ts) code
                      || (calls_for (bitlocker_calls topo ts) code
                          || (calls_for (storage_calls topo ts) code
                              || (calls_for (completeness_calls topo ts) code
                                  || calls_for (consistency_calls topo ts) code))))))
  unfolding calls_for calls
  calls_for-calls code = simp any-append

  esp_crossed :
      calls_for (esp_calls topo ts) efi_system_partition_cross_disk ≡ esp_on_other_disk topo
  unfolding calls_for esp_calls esp_on_other_disk
  esp_crossed = ground arith

  bcd_crossed : calls_for (bcd_calls topo ts) bcd_cross_disk_mismatch ≡ has_bcd_cross_disk topo
  unfolding calls_for bcd_calls
  bcd_crossed = ground arith

  storage_failed :
      calls_for (storage_calls topo ts) storage_health_critical ≡ storage_unsafe topo ts
  unfolding calls_for storage_calls storage_unsafe
  storage_failed = ground arith

  incomplete_called :
      is_incomplete topo ts ≡ true
      → calls_for (completeness_calls topo ts) boot_topology_incomplete ≡ true
  unfolding calls_for completeness_calls
  incomplete_called h = ground arith

  -- The code of a draft is one that was called for.
  pub found-collect_drafts :
      (ev code : String)
      → code == "" ≡ false
      → is_some (found (collect_drafts topo ts ev) code) ≡ calls_for (calls topo ts) code
  unfolding collect_drafts found
  found-collect_drafts ev code h =
      found-add_all ev (topology_evidence_refs topo) [] (calls topo ts) code h

  pub calls-unsafe :
      calls_for (calls topo ts) unsafe_to_attempt_boot_repair
      ≡ esp_on_other_disk topo || (has_bcd_cross_disk topo || storage_unsafe topo ts)
  calls-unsafe =
      let all_calls = calls_for-calls unsafe_to_attempt_boot_repair in
      let f = firmware_quiet.0 in
      let w = windows_quiet.0 in
      let l = bitlocker_quiet.0 in
      let c = completeness_quiet.0 in
      let e = esp_unsafe.0 in
      let b = bcd_unsafe.0 in let s = storage_unsafe_lem.0 in let h = healthy_only.0 in ground arith

  pub calls-consistent : calls_for (calls topo ts) boot_topology_consistent ≡ is_healthy topo ts
  calls-consistent =
      let all_calls = calls_for-calls boot_topology_consistent in
      let f = firmware_quiet.1 in
      let w = windows_quiet.1 in
      let l = bitlocker_quiet.1 in
      let c = completeness_quiet.1 in
      let e = esp_unsafe.1 in
      let b = bcd_unsafe.1 in let s = storage_unsafe_lem.1 in let h = healthy_only.1 in ground arith

  -- What stands against a consistent topology is called for.
  pub calls-against :
      (esp_on_other_disk topo ≡ true
        → calls_for (calls topo ts) efi_system_partition_cross_disk ≡ true)
      × (has_bcd_cross_disk topo ≡ true → calls_for (calls topo ts) bcd_cross_disk_mismatch ≡ true)
      × (storage_unsafe topo ts ≡ true → calls_for (calls topo ts) storage_health_critical ≡ true)
      × (is_incomplete topo ts ≡ true → calls_for (calls topo ts) boot_topology_incomplete ≡ true)
  calls-against = (
    λ h.
        let k = calls_for-calls efi_system_partition_cross_disk in
        let e = esp_crossed in ground arith,
    λ h. let k = calls_for-calls bcd_cross_disk_mismatch in let e = bcd_crossed in ground arith,
    λ h. let k = calls_for-calls storage_health_critical in let e = storage_failed in ground arith,
    λ h.
        let k = calls_for-calls boot_topology_incomplete in
        let e = incomplete_called h in ground arith,
  )
