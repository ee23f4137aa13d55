-- ===== src/BootDoctor/Drafts/Catalogued.antt =====
-- The codes of the drafts of internal/recovery/bootdoctor/analyze.go, against its catalogue.
use effexor_win_doctor.Prelude.{
  String, ◌≡◌, refl, ap, ◌∙◌, Bool, true, ◌==◌, is_some, List, [], ◌∷◌, all, all-append, arith,
  Bool-cases, inl, inr, if_cases, is_empty,
}
use effexor_win_doctor.Domain.Documents.{Target}
use effexor_win_doctor.Domain.Topology.{WindowsBootTopology}
use effexor_win_doctor.BootDoctor.Catalog.{catalog, spec_of}
use effexor_win_doctor.BootDoctor.Suppress.{Draft, Drafts, without, dropped, apply_suppression}
use effexor_win_doctor.BootDoctor.Drafts.{
  Added, put_draft, draft_of, merged, add, add_all, firmware_calls, windows_calls, esp_calls,
  bcd_calls, bitlocker_calls, storage_calls, completeness_calls, consistency_calls, calls,
  collect_drafts,
}
use effexor_win_doctor.BootDoctor.Queries.{topology_evidence_refs}

-- Has the catalogue the code?
unfoldable pub in_catalog : String → Bool
unfolding spec_of
in_catalog code = is_some (spec_of catalog code)

-- Every draft's code is in the catalogue.
unfoldable pub catalogued : Drafts → Bool
catalogued ds = all (λ (e : String × Draft). in_catalog e.0) ds

calls_catalogued : List Added → Bool
calls_catalogued cs = all (λ (a : Added). in_catalog a.code) cs

module _ (topo : WindowsBootTopology) (ts : List Target) where
  windows_catalogued : calls_catalogued (windows_calls topo ts) ≡ true
  unfolding calls_catalogued windows_calls in_catalog
  windows_catalogued = ground arith

  firmware_catalogued : calls_catalogued (firmware_calls topo ts) ≡ true
  unfolding calls_catalogued firmware_calls in_catalog
  firmware_catalogued = ground arith

  esp_catalogued : calls_catalogued (esp_calls topo ts) ≡ true
  unfolding calls_catalogued esp_calls in_catalog
  esp_catalogued = ground arith

  bcd_catalogued : calls_catalogued (bcd_calls topo ts) ≡ true
  unfolding calls_catalogued bcd_calls in_catalog
  bcd_catalogued = ground arith

  bitlocker_catalogued : calls_catalogued (bitlocker_calls topo ts) ≡ true
  unfolding calls_catalogued bitlocker_calls in_catalog
  bitlocker_catalogued = ground arith

  storage_catalogued : calls_catalogued (storage_calls topo ts) ≡ true
  unfolding calls_catalogued storage_calls in_catalog
  storage_catalogued = ground arith

  completeness_catalogued : calls_catalogued (completeness_calls topo ts) ≡ true
  unfolding calls_catalogued completeness_calls in_catalog
  completeness_catalogued = ground arith

  consistency_catalogued : calls_catalogued (consistency_calls topo ts) ≡ true
  unfolding calls_catalogued consistency_calls in_catalog
  consistency_catalogued = ground arith

  calls-catalogued : calls_catalogued (calls topo ts) ≡ true
  unfolding calls_catalogued calls
  calls-catalogued =
      let f = firmware_catalogued in
      let w = windows_catalogued in
      let e = esp_catalogued in
      let b = bcd_catalogued in
      let l = bitlocker_catalogued in
      let s = storage_catalogued in
      let c = completeness_catalogued in
      let h = consistency_catalogued in simp (all-append, f, w, e, b, l, s, c, h)

put_draft-catalogued :
    (ds : Drafts) (code : String) (d : Draft)
    → in_catalog code ≡ true
    → catalogued ds ≡ true
    → catalogued (put_draft ds code d) ≡ true
unfolding catalogued put_draft
put_draft-catalogued [] code d h k = ground arith
put_draft-catalogued ((c, e) ∷ ds) code d h k = ground (arith, put_draft-catalogued ds code d h)

add_all-catalogued :
    (ev : String) (es : List String) (out : Drafts) (cs : List Added)
    → catalogued out ≡ true
    → calls_catalogued cs ≡ true
    → catalogued (add_all ev es out cs) ≡ true
unfolding add_all add calls_catalogued
add_all-catalogued ev es out [] h k = h
add_all-catalogued ev es out (a ∷ cs) h k =
    let d = merged ev es (draft_of out a.code) a in
    let p = put_draft-catalogued out a.code d in
    elim (Bool-cases (a.code == "")) [
      | inl blank ↦
          let same : add ev es out a ≡ out = ground arith in
          add_all-catalogued ev es (add ev es out a) cs (ap catalogued same ∙ h) (ground arith)
      | inr named ↦
          let same : add ev es out a ≡ put_draft out a.code d = ground arith in
          add_all-catalogued ev es (add ev es out a) cs (ap catalogued same ∙ p (ground arith) h)
            (ground arith)
    ]

without-catalogued :
    (drop : List String) (ds : Drafts) → catalogued ds ≡ true → catalogued (without drop ds) ≡ true
unfolding catalogued without
without-catalogued drop [] h = refl
without-catalogued drop ((c, d) ∷ ds) h = ground (arith, without-catalogued drop ds)

-- Every draft that suppression keeps has its entry in the catalogue, so that no analysis fails for a
-- code that is unknown.
pub kept-catalogued :
    (topo : WindowsBootTopology) (ts : List Target) (ev : String)
    → catalogued (apply_suppression (collect_drafts topo ts ev)) ≡ true
unfolding apply_suppression collect_drafts catalogued
kept-catalogued topo ts ev =
    let ds = collect_drafts topo ts ev in
    let h : catalogued ds ≡ true =
      add_all-catalogued ev (topology_evidence_refs topo) [] (calls topo ts) refl
        (calls-catalogued topo ts) in
    if_cases (λ l. catalogued l ≡ true) (is_empty (dropped ds)) ds (without (dropped ds) ds)
      (λ _. h) (λ _. without-catalogued (dropped ds) ds h)
