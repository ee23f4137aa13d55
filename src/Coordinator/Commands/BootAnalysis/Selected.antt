-- ===== src/Coordinator/Commands/BootAnalysis/Selected.antt =====
-- The evidence that a boot doctor's analysis reads: `selectTopologyEvidence` of
-- internal/recovery/coordinator/bootdoctor.go.
use text.Mathlib.Text.{is_lt}
use Prim.Native.String.{compare}
use mathlib.Core.List.{Memᴰ}
use mathlib.Core.List.Memᴰ
use effexor_win_doctor.Prelude.{
  String, ◌≡◌, refl, ◌∙◌, inl, inr, ap, subst, Bool, true, ◌&&◌, ◌||◌, ◌==◌, Option, none, some,
  List, [], ◌∷◌, ok, if_cases, if◌then◌else◌, >>-eq-ok, >>=-eq-ok, map_err-eq-ok, ok-injective,
}
use effexor_win_doctor.Domain.Evidence.{EvidenceBundle}
use effexor_win_doctor.Domain.Topology.{WindowsBootTopology}
use effexor_win_doctor.Domain.Topology.Validation.{validate_topology}
use effexor_win_doctor.CaseStore.Snapshot.{Snapshot}
use effexor_win_doctor.Coordinator.{invalid_snapshot}
use effexor_win_doctor.Coordinator.Commands.BootAnalysis.{
  matching_evidence, last_sorted, chosen_evidence, decoded_topology, select_topology_evidence,
}

-- Is the bundle a boot topology, and the one that is wanted?
abbrev is_wanted : String → EvidenceBundle → Bool
is_wanted want e =
    e.facts_schema == "windows-boot-topology" && (want == "" || e.evidence_id == want)

-- A bundle of the case whose facts are a valid topology.
pub record Selected (decode : String → Option WindowsBootTopology) (snap : Snapshot) (want : String)
    (e : EvidenceBundle) (topo : WindowsBootTopology) : Type 0 where
  pub member : Memᴰ e snap.evidence_bundles
  pub wanted : is_wanted want e ≡ true
  pub decoded : decode e.facts ≡ some topo
  pub valid : validate_topology topo ≡ ok tt

-- A member that is wanted.
abbrev Wanted : String → List EvidenceBundle → EvidenceBundle → Type 0
Wanted want es e = Memᴰ e es × (is_wanted want e ≡ true)

matching_evidence-Wanted :
    (want : String) (es : List EvidenceBundle) (e : EvidenceBundle)
    → Memᴰ e (matching_evidence want es)
    → Wanted want es e
unfolding matching_evidence
matching_evidence-Wanted want [] e m = absurd (Memᴰ.not-nil m)
matching_evidence-Wanted want (b ∷ bs) e m =
    if_cases (λ l. Memᴰ e l → Wanted want (b ∷ bs) e) (is_wanted want b)
      (b ∷ matching_evidence want bs) (matching_evidence want bs)
      (λ h k. elim (Memᴰ.cases_cons k) [
        | inl same ↦ (Memᴰ.head same, ap (is_wanted want) same ∙ h)
        | inr rest ↦ let (m', w) = matching_evidence-Wanted want bs e rest in (Memᴰ.tail m', w)
      ])
      (λ h k. let (m', w) = matching_evidence-Wanted want bs e k in (Memᴰ.tail m', w)) m

last_sorted-member :
    (best : EvidenceBundle) (es all : List EvidenceBundle)
    → Memᴰ best all
    → ((e : EvidenceBundle) → Memᴰ e es → Memᴰ e all)
    → Memᴰ (last_sorted best es) all
unfolding last_sorted
last_sorted-member best [] all m sub = m
last_sorted-member best (e ∷ es) all m sub =
    last_sorted-member (if is_lt (compare e.evidence_id best.evidence_id) then best else e) es all
      (if_cases (λ b. Memᴰ b all) (is_lt (compare e.evidence_id best.evidence_id)) best e (λ _. m)
        (λ _. sub e (Memᴰ.head refl)))
      (λ x k. sub x (Memᴰ.tail k))

chosen_evidence-member :
    (want : String) (es : List EvidenceBundle) (e : EvidenceBundle)
    → chosen_evidence want es ≡ ok e
    → Memᴰ e es
unfolding chosen_evidence
chosen_evidence-member want [] e h = absurd (let z : ⊥ = cc in z)
chosen_evidence-member want (b ∷ bs) e h =
    subst (λ x. Memᴰ x (b ∷ bs)) (ok-injective _ e h)
      (last_sorted-member b bs (b ∷ bs) (Memᴰ.head refl) (λ x k. Memᴰ.tail k))

decoded_topology-ok :
    (found : Option WindowsBootTopology) (topo : WindowsBootTopology)
    → decoded_topology found ≡ ok topo
    → (found ≡ some topo) × (validate_topology topo ≡ ok tt)
unfolding decoded_topology
decoded_topology-ok none topo h = absurd (let z : ⊥ = cc in z)
decoded_topology-ok (some t) topo h =
    let (h1, h2) = >>-eq-ok _ _ h in
    let same : t ≡ topo = ok-injective t topo h2 in
    (
      ap some same,
      subst (λ x. validate_topology x ≡ ok tt) same
          (map_err-eq-ok invalid_snapshot (validate_topology t) tt h1),
    )

-- The evidence that is selected is of the case, has the schema of a topology and the wanted id, and
-- its facts decode to a topology that is valid.
pub select_topology_evidence-Selected :
    (decode : String → Option WindowsBootTopology) (snap : Snapshot) (want : String)
    (e : EvidenceBundle) (topo : WindowsBootTopology)
    → select_topology_evidence decode snap want ≡ ok (e, topo)
    → Selected decode snap want e topo
unfolding select_topology_evidence
select_topology_evidence-Selected decode snap want e topo h =
    let (b, h1, h2) =
      >>=-eq-ok (chosen_evidence want (matching_evidence want snap.evidence_bundles)) _ h in
    let (t, h3, h4) = >>=-eq-ok (decoded_topology (decode b.facts)) _ h2 in
    let same : (b, t) ≡ (e, topo) = ok-injective _ _ h4 in
    let (m, w) =
      matching_evidence-Wanted want snap.evidence_bundles b (chosen_evidence-member want _ b h1) in
    let (d, v) = decoded_topology-ok (decode b.facts) t h3 in
    subst (λ (p : EvidenceBundle × WindowsBootTopology). Selected decode snap want p.0 p.1) same
      (record { member = m; wanted = w; decoded = d; valid = v })
