-- ===== src/Domain/Topology/Validation.antt =====
-- The `Validate` methods of internal/recovery/domain/windows_boot_topology.go.
use effexor_win_doctor.Prelude.{
  ℕ, String, ◌+◌, List, [], ◌∷◌, ◌&&◌, not, ◌==◌, elems, is_empty, contains_string, any, ok, guard,
  map_err, ◌>>◌, itoa,
}
use effexor_win_doctor.Domain.Errors.{errorf, wrap, Check}
use effexor_win_doctor.Domain.Patterns.{
  re_case_id, re_target_id, re_evidence_id, re_topology_id, re_producer_id, re_commit_id, re_semver,
  re_reason_code,
}
use effexor_win_doctor.Domain.Checks.{
  require_enum, require_match, require_rfc3339, require_schema, require_present, require_non_empty,
  require_unique_id_list, if_set,
}
use effexor_win_doctor.Domain.Topology.{
  WindowsBootTopology, TopologyCandidate, TopologyRelation, TopologySelection, TopologyAmbiguity,
  MutationEligibility, firmware_modes, topology_confidences, topology_roles,
  topology_relation_types, selection_none, selection_sources,
  mutation_eligibility_diagnostic_evidence_only, mutation_blockers,
}

unfoldable pub validate_candidate : TopologyCandidate → Check
validate_candidate c = do
  require_match "candidate_id" c.candidate_id re_producer_id
  require_enum "role" c.role topology_roles
  require_match "target_id" c.target_id re_target_id
  require_enum "confidence" c.confidence topology_confidences
  require_unique_id_list "evidence_refs" c.evidence_refs re_evidence_id
  require_unique_id_list "rationale_codes" c.rationale_codes re_reason_code
  require_present "limitations" c.limitations

unfoldable pub validate_relation : TopologyRelation → Check
validate_relation r = do
  require_match "relation_id" r.relation_id re_producer_id
  require_enum "relation_type" r.relation_type topology_relation_types
  require_match "from_target_id" r.from_target_id re_target_id
  require_match "to_target_id" r.to_target_id re_target_id
  require_enum "confidence" r.confidence topology_confidences
  require_unique_id_list "evidence_refs" r.evidence_refs re_evidence_id
  require_unique_id_list "rationale_codes" r.rationale_codes re_reason_code
  require_present "limitations" r.limitations

abbrev pub selected_ids : TopologySelection → List String
selected_ids s =
    s.windows_target_id ∷ s.windows_partition_target_id ∷ s.system_disk_target_id ∷ s.esp_target_id
    ∷ s.bcd_target_id ∷ []

check_selected : List String → Check
check_selected [] = ok tt
check_selected (id ∷ ids) =
    if_set id (require_match "selection_target_id" id re_target_id) >> check_selected ids

unfoldable pub validate_selection : TopologySelection → Check
unfolding check_selected
validate_selection s = do
  require_enum "source" s.source selection_sources
  check_selected (selected_ids s)
  guard (not (s.source == selection_none && any (λ id. not (id == "")) (selected_ids s)))
      (errorf "selection source none must not set selected target ids" [])

unfoldable pub validate_ambiguity : TopologyAmbiguity → Check
validate_ambiguity a = do
  require_match "code" a.code re_reason_code
  require_non_empty "message" a.message
  require_unique_id_list "target_ids" a.target_ids re_target_id
  require_unique_id_list "evidence_refs" a.evidence_refs re_evidence_id

check_blockers : List String → List String → Check
check_blockers seen [] = ok tt
check_blockers seen (b ∷ bs) = do
  require_enum "blocker" b mutation_blockers
  guard (not (contains_string seen b)) (errorf "duplicate blocker %q" (b ∷ []))
  check_blockers (b ∷ seen) bs

unfoldable pub validate_eligibility : MutationEligibility → Check
unfolding check_blockers
validate_eligibility m = do
  guard (m.basis == mutation_eligibility_diagnostic_evidence_only)
      (errorf "basis must be %q" (mutation_eligibility_diagnostic_evidence_only ∷ []))
  require_present "blockers" m.blockers
  check_blockers [] (elems m.blockers)
  guard (not (m.eligible && not (is_empty (elems m.blockers))))
      (errorf "eligible=true must not set blockers" [])

check_candidates : ℕ → List String → List TopologyCandidate → Check
check_candidates i seen [] = ok tt
check_candidates i seen (c ∷ cs) = do
  map_err (wrap "candidates[%d]: %w" (itoa i ∷ [])) (validate_candidate c)
  guard (not (contains_string seen c.candidate_id))
      (errorf "duplicate candidate_id %q" (c.candidate_id ∷ []))
  check_candidates (i + 1) (c.candidate_id ∷ seen) cs

check_relations : ℕ → List String → List TopologyRelation → Check
check_relations i seen [] = ok tt
check_relations i seen (r ∷ rs) = do
  map_err (wrap "relations[%d]: %w" (itoa i ∷ [])) (validate_relation r)
  guard (not (contains_string seen r.relation_id))
      (errorf "duplicate relation_id %q" (r.relation_id ∷ []))
  check_relations (i + 1) (r.relation_id ∷ seen) rs

check_ambiguities : ℕ → List TopologyAmbiguity → Check
check_ambiguities i [] = ok tt
check_ambiguities i (a ∷ more) =
    map_err (wrap "ambiguities[%d]: %w" (itoa i ∷ [])) (validate_ambiguity a)
    >> check_ambiguities (i + 1) more

none_empty : ℕ → List String → Check
none_empty i [] = ok tt
none_empty i (lim ∷ lims) =
    guard (not (lim == "")) (errorf "limitations[%d] must not be empty" (itoa i ∷ []))
    >> none_empty (i + 1) lims

unfoldable pub validate_topology : WindowsBootTopology → Check
unfolding check_candidates check_relations check_ambiguities none_empty
validate_topology t = do
  require_schema t.schema_name t.schema_version "windows-boot-topology"
  require_match "topology_id" t.topology_id re_topology_id
  require_match "case_id" t.case_id re_case_id
  require_match "resolver_id" t.resolver_id re_producer_id
  require_match "resolver_version" t.resolver_version re_semver
  require_match "source_commit_id" t.source_commit_id re_commit_id
  require_rfc3339 "generated_at" t.generated_at
  require_enum "firmware_mode" t.firmware_mode firmware_modes
  require_present "candidates" t.candidates
  check_candidates 0 [] (elems t.candidates)
  require_present "relations" t.relations
  check_relations 0 [] (elems t.relations)
  map_err (wrap "selection: %w" []) (validate_selection t.selection)
  require_present "ambiguities" t.ambiguities
  check_ambiguities 0 (elems t.ambiguities)
  require_present "limitations" t.limitations
  none_empty 0 (elems t.limitations)
  map_err (wrap "mutation_eligibility: %w" []) (validate_eligibility t.mutation_eligibility)
