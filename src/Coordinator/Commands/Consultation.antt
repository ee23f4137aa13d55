-- ===== src/Coordinator/Commands/Consultation.antt =====
-- `CommitAgentConsultation` of internal/recovery/coordinator/consultation.go. SHA-256 in hexadecimal is
-- a parameter. Go looks an artifact up in a nil map, which is the empty list.
pub mod Equal
pub mod Reflexive
pub mod Advisory
pub mod Repeated
pub mod Example
use effexor_win_doctor.Prelude.{
  ℕ, String, str_append, Bool, true, false, Option, none, some, List, [], ◌∷◌, ◌++◌, ◌&&◌, ◌||◌,
  not, ◌==◌, eqb, if◌then◌else◌, all, length, take, drop, codes, bytes_of, map, Result, ok, err,
  guard, map_err, ◌>>=◌, ◌>>◌,
}
use effexor_win_doctor.Domain.Workflow.{WorkflowStateName, CaseWorkflowState, analyzed}
use effexor_win_doctor.Domain.Events.{
  ActorType, system, technician, llm_advisor, document_id_case_workflow_state,
}
use effexor_win_doctor.Domain.Documents.{Target}
use effexor_win_doctor.Domain.Evidence.{EvidenceBundle}
use effexor_win_doctor.Domain.Consultations.{AgentConsultation, validate_consultation}
use effexor_win_doctor.Domain.CrossRefs.{CrossRefs, validate_consultation_refs}
use effexor_win_doctor.BootDoctor.Identity.{take_text}
use effexor_win_doctor.CaseStore.Snapshot.{Snapshot}
use effexor_win_doctor.CaseStore.Snapshot.Validation.{validate}
use effexor_win_doctor.CaseStore.Types.{CommitInfo}
use effexor_win_doctor.Coordinator.{
  CommandError, invalid_argument, invalid_snapshot, transition, actor_not_allowed,
  acquisition_conflict, revision_conflict_error, current_state, CaseView, Store, view_from,
}
use effexor_win_doctor.Coordinator.Access.{load_latest_verified, commit_snapshot}
use effexor_win_doctor.Coordinator.Acquire.RequestId.{same_bytes, is_hex_byte}
use effexor_win_doctor.Coordinator.State.{default_actor}
use effexor_win_doctor.Coordinator.Commands.Consultation.Equal.{consultations_canonically_equal}

pub record ConsultationRequest : Type 0 where
  pub case_id : String
  pub expected_commit_id : String
  pub request_id : String
  pub consultation : AgentConsultation
  pub actor : ActorType

pub record ConsultationResult : Type 0 where
  pub case_view : CaseView
  pub consultation : AgentConsultation
  pub idempotent : Bool

consultation_actor : ActorType → Result CommandError ActorType
consultation_actor system = ok system
consultation_actor technician = ok technician
consultation_actor llm_advisor = ok llm_advisor
consultation_actor _ = err actor_not_allowed

-- `requireConsultationActor`
unfoldable pub require_consultation_actor : ActorType → Result CommandError ActorType
unfolding consultation_actor
require_consultation_actor actor = consultation_actor (default_actor actor system)

unfoldable pub is_analyzed : WorkflowStateName → Bool
is_analyzed analyzed = true
is_analyzed _ = false

-- `requireAnalyzedForConsultation`
unfoldable pub require_analyzed_for_consultation :
    Snapshot → String → Result CommandError (Unit {0})
unfolding is_analyzed
require_analyzed_for_consultation snap case_id = guard (is_analyzed (current_state snap)) (
    transition (record {
      case_id = case_id;
      from = current_state snap;
      to = analyzed;
      reason = "consultation_not_allowed";
    }))

-- `matched`
matched_consultation : List ℕ → Bool
unfolding same_bytes
matched_consultation id =
    eqb (length id) 29 && all is_hex_byte (drop 5 id) && same_bytes (take 5 id) (codes "creq-")

unfoldable pub validate_consultation_request_id : String → Result CommandError (Unit {0})
unfolding matched_consultation
validate_consultation_request_id id = do
  guard (not (id == "")) (invalid_argument "request_id is required")
  guard (matched_consultation (bytes_of (codes id)))
      (invalid_argument "request_id must match creq-<24 lowercase hex>")

-- `consultationIDFor`: twelve bytes are twenty-four hexadecimal digits.
unfoldable pub consultation_id_for : (String → String) → String → String → String → String
unfolding take_text
consultation_id_for sha256_hex case_id request_id input_digest = str_append "consult-" (
    take_text 24 (
      sha256_hex (
        str_append "agentruntime|consultation|" (
          str_append case_id
            (str_append "|" (str_append request_id (str_append "|" input_digest)))))))

-- The consultation with the request's ids.
unfoldable pub requested : ConsultationRequest → AgentConsultation
requested q = record q.consultation {
  request_id = q.request_id;
  case_id = if q.consultation.case_id == "" then q.case_id else q.consultation.case_id;
}

-- The ids that are filled in.
unfoldable pub identified : (String → String) → CommitInfo → AgentConsultation → AgentConsultation
unfolding consultation_id_for
identified sha256_hex info c = record c {
  consultation_id =
      if c.consultation_id == ""
      then consultation_id_for sha256_hex c.case_id c.request_id c.input_digest
      else c.consultation_id;
  source_commit_id = if c.source_commit_id == "" then info.commit_id else c.source_commit_id;
}

-- `findConsultationReplay`, over the case's consultations.
unfoldable pub find_consultation_replay :
    String
    → String
    → AgentConsultation
    → List AgentConsultation
    → Option (Result CommandError AgentConsultation)
find_consultation_replay case_id request_id cons [] = none
find_consultation_replay case_id request_id cons (e ∷ es) =
    let rest = find_consultation_replay case_id request_id cons es in
    let same = consultations_canonically_equal e cons in
    if not (e.request_id == request_id) && not (e.consultation_id == cons.consultation_id)
    then rest
    else if e.request_id == request_id && not same
    then some (err (acquisition_conflict case_id request_id))
    else if e.consultation_id == cons.consultation_id && not same
    then some (err (acquisition_conflict case_id request_id))
    else if not same
    then rest
    else some (ok e)

-- The loop of `appendConsultation`.
unfoldable pub no_twin : List AgentConsultation → AgentConsultation → Result CommandError (Unit {0})
no_twin [] cons = ok tt
no_twin (e ∷ es) cons = do
  guard (not (e.consultation_id == cons.consultation_id))
      (invalid_argument "consultation_id already exists")
  guard (not (e.request_id == cons.request_id))
      (invalid_argument "consultation request_id already exists")
  no_twin es cons

workflow_ids : Option CaseWorkflowState → List String
workflow_ids none = []
workflow_ids (some w) = document_id_case_workflow_state ∷ []

-- `buildCrossRefs`
unfoldable pub build_cross_refs : Snapshot → CrossRefs
unfolding workflow_ids
build_cross_refs s =
    let targets = map (λ (t : Target). t.target_id) s.targets in
    let evidence = map (λ (e : EvidenceBundle). e.evidence_id) s.evidence_bundles in
    let findings = map (λ f. f.finding_id) s.findings in
    let plans = map (λ p. p.plan_id) s.repair_plans in
    let executions = map (λ e. e.execution_id) s.execution_events in
    let verifications = map (λ v. v.verification_id) s.verification_reports in
    let events = map (λ e. e.event_id) s.coordinator_events in
    record {
      case_ids = s.manifest.case_id ∷ [];
      target_ids = targets;
      evidence_ids = evidence;
      finding_ids = findings;
      plan_ids = plans;
      execution_ids = executions;
      verification_ids = verifications;
      artifact_ids = [];
      coordinator_event_ids = events;
      document_ids =
          s.manifest.case_id
          ∷ (targets
              ++ (evidence
                  ++ (findings
                      ++ (plans
                          ++ (executions
                              ++ (verifications ++ (events ++ workflow_ids s.workflow_state)))))));
    }

-- A snapshot with one consultation more.
abbrev pub with_consultation : Snapshot → AgentConsultation → Snapshot
with_consultation snap cons = record snap {
  agent_consultations = snap.agent_consultations ++ cons ∷ [];
}

-- `appendConsultation`
unfoldable pub append_consultation : Snapshot → AgentConsultation → Result CommandError Snapshot
append_consultation snap cons = do
  no_twin snap.agent_consultations cons
  map_err invalid_snapshot (validate_consultation_refs cons (build_cross_refs snap))
  map_err invalid_snapshot (validate (with_consultation snap cons))
  ok (with_consultation snap cons)

-- What the command does after its reads.
pub data ConsultationDecision : Type 0 where
  repeat_consultation : CaseView → AgentConsultation → ConsultationDecision
  append_one : Snapshot → String → AgentConsultation → ConsultationDecision

-- The checks of the commit, where the request is new.
unfoldable pub new_consultation :
    ConsultationRequest
    → Snapshot
    → CommitInfo
    → AgentConsultation
    → Result CommandError ConsultationDecision
new_consultation q snap info cons =
    guard (not (q.expected_commit_id == "")) (invalid_argument "expected_commit_id is required")
    >> (guard (q.expected_commit_id == info.commit_id)
          (revision_conflict_error q.case_id q.expected_commit_id info.commit_id)
        >> (map_err invalid_snapshot (validate_consultation cons)
            >> (append_consultation snap cons >>= λ next.
                ok (append_one next info.commit_id cons))))

unfoldable pub replayed_or_new :
    ConsultationRequest
    → Snapshot
    → CommitInfo
    → AgentConsultation
    → Option (Result CommandError AgentConsultation)
    → Result CommandError ConsultationDecision
replayed_or_new q snap info cons none = new_consultation q snap info cons
replayed_or_new q snap info cons (some (err e)) = err e
replayed_or_new q snap info cons (some (ok existing)) =
    ok (repeat_consultation (view_from snap info) existing)

-- The checks before the read.
unfoldable pub check_consultation_request : ConsultationRequest → Result CommandError (Unit {0})
check_consultation_request q = do
  require_consultation_actor q.actor >>= λ actor. ok tt
  validate_consultation_request_id q.request_id
  guard (q.consultation.request_id == "" || q.consultation.request_id == q.request_id)
      (invalid_argument "consultation.request_id must match request_id")
  guard ((requested q).case_id == q.case_id) (invalid_argument "consultation.case_id mismatch")

-- The consultation that the command looks up and appends.
abbrev pub consultation_of :
    (String → String) → ConsultationRequest → CommitInfo → AgentConsultation
consultation_of sha256_hex q info = identified sha256_hex info (requested q)

unfoldable pub decide_consultation :
    (String → String)
    → ConsultationRequest
    → Snapshot
    → CommitInfo
    → Result CommandError ConsultationDecision
decide_consultation sha256_hex q snap info =
    let cons = consultation_of sha256_hex q info in
    require_analyzed_for_consultation snap q.case_id
    >> replayed_or_new q snap info cons
        (find_consultation_replay snap.manifest.case_id q.request_id cons snap.agent_consultations)

module _ {S : Type 0} (store : Store S) (sha256_hex : String → String) where
  unfoldable pub consultation_decision :
      S → ConsultationRequest → Result CommandError ConsultationDecision
  unfolding check_consultation_request
  consultation_decision s q =
      check_consultation_request q
      >> (load_latest_verified store s q.case_id >>= λ loaded.
          decide_consultation sha256_hex q loaded.0 loaded.1)

  consultation_shown :
      AgentConsultation
      → S × Result CommandError CaseView
      → S × Result CommandError ConsultationResult
  consultation_shown cons (s, err e) = (s, err e)
  consultation_shown cons (s, ok view) =
      (s, ok (record { case_view = view; consultation = cons; idempotent = false }))

  unfoldable pub carry_out_consultation :
      S → Result CommandError ConsultationDecision → S × Result CommandError ConsultationResult
  unfolding consultation_shown
  carry_out_consultation s (err e) = (s, err e)
  carry_out_consultation s (ok (repeat_consultation view existing)) =
      (s, ok (record { case_view = view; consultation = existing; idempotent = true }))
  carry_out_consultation s (ok (append_one next head cons)) =
      consultation_shown cons (commit_snapshot store s next head)

  unfoldable pub commit_agent_consultation :
      ConsultationRequest → S → S × Result CommandError ConsultationResult
  commit_agent_consultation q s = carry_out_consultation s (consultation_decision s q)
