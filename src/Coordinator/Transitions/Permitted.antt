-- ===== src/Coordinator/Transitions/Permitted.antt =====
-- The transitions that transitions.go allows, as a relation: the state before and after, the actor,
-- and the numbers of findings and plans at hand.
use effexor_win_doctor.Prelude.{
  ℕ, zero, suc, ◌≡◌, refl, ◌↔◌, Bool, true, Option, none, some, arith, ok, if_cases, subst, sym,
  ◌&&◌, ◌||◌, Bool-cases, inl, inr,
}
use effexor_win_doctor.Domain.Workflow.{
  WorkflowStateName, created, evidence_collected, analyzed, plan_proposed, state_eq, state_eq→≡,
}
use effexor_win_doctor.Domain.Events.{
  ActorType, system, technician, deterministic_analyzer, CoordinatorEventType, case_created,
  legacy_case_adopted, analysis_committed, plan_committed, case_failed, case_cancelled, is_open,
  validate_pr17_coordinator_event_semantics, validate, allowed_actor_for_pr17_event,
  valid_pr17_transition_for_event, revision_rules,
}
use effexor_win_doctor.Coordinator.Transitions.{validate_transition, event_for, transition_of}

-- Who may open a case, analyse it, plan for it and close it.
pub data Opens : ActorType → Type 0 where
  by_system : Opens system
  by_technician : Opens technician

pub data Analyses : ActorType → Type 0 where
  by_system : Analyses system
  by_analyzer : Analyses deterministic_analyzer

pub data Plans : ActorType → Type 0 where
  by_system : Plans system
  by_technician : Plans technician
  by_analyzer : Plans deterministic_analyzer

-- The states that a case can be closed in, and how.
pub data Open : WorkflowStateName → Type 0 where
  collected : Open evidence_collected
  diagnosed : Open analyzed
  proposed : Open plan_proposed

pub data Closed : WorkflowStateName → Type 0 where
  failed : Closed WorkflowStateName.failed
  cancelled : Closed WorkflowStateName.cancelled

pub data Permitted : WorkflowStateName → WorkflowStateName → ActorType → ℕ → ℕ → Type 0 where
  opened : {a : ActorType} {f p : ℕ} → Opens a → Permitted created evidence_collected a f p
  adopted :
      {a : ActorType} {f p : ℕ}
      → Opens a
      → Permitted WorkflowStateName.unset evidence_collected a f p
  first_analysis :
      {a : ActorType} {f p : ℕ} → Analyses a → Permitted evidence_collected analyzed a (suc f) p
  next_analysis : {a : ActorType} {f p : ℕ} → Analyses a → Permitted analyzed analyzed a (suc f) p
  planned : {a : ActorType} {f p : ℕ} → Plans a → Permitted analyzed plan_proposed a f (suc p)
  closed :
      {s t : WorkflowStateName} {a : ActorType} {f p : ℕ}
      → Open s
      → Closed t
      → Plans a
      → Permitted s t a f p

-- The relation is what the code accepts.
permitted-accepted :
    (s t : WorkflowStateName) (a : ActorType) (f p : ℕ)
    → Permitted s t a f p
    → validate_transition s t a f p ≡ ok tt
unfolding validate_transition validate_pr17_coordinator_event_semantics validate
    allowed_actor_for_pr17_event valid_pr17_transition_for_event revision_rules
permitted-accepted s t a f p (opened by_system) = refl
permitted-accepted s t a f p (opened by_technician) = refl
permitted-accepted s t a f p (adopted by_system) = refl
permitted-accepted s t a f p (adopted by_technician) = refl
permitted-accepted s t a f p (first_analysis by_system) = ground arith
permitted-accepted s t a f p (first_analysis by_analyzer) = ground arith
permitted-accepted s t a f p (next_analysis by_system) = ground arith
permitted-accepted s t a f p (next_analysis by_analyzer) = ground arith
permitted-accepted s t a f p (planned by_system) = ground arith
permitted-accepted s t a f p (planned by_technician) = ground arith
permitted-accepted s t a f p (planned by_analyzer) = ground arith
permitted-accepted s t a f p (closed collected failed by_system) = refl
permitted-accepted s t a f p (closed collected cancelled by_system) = refl
permitted-accepted s t a f p (closed diagnosed failed by_system) = refl
permitted-accepted s t a f p (closed diagnosed cancelled by_system) = refl
permitted-accepted s t a f p (closed proposed failed by_system) = refl
permitted-accepted s t a f p (closed proposed cancelled by_system) = refl
permitted-accepted s t a f p (closed _ _ _) = refl

-- The states of the event that the switch picks.
data Moves : CoordinatorEventType → WorkflowStateName → WorkflowStateName → Type 0 where
  creation : Moves case_created created evidence_collected
  adoption : Moves legacy_case_adopted WorkflowStateName.unset evidence_collected
  analysis_of_evidence : Moves analysis_committed evidence_collected analyzed
  analysis_again : Moves analysis_committed analyzed analyzed
  plan : Moves plan_committed analyzed plan_proposed
  failure : {s : WorkflowStateName} → Open s → Moves case_failed s WorkflowStateName.failed
  cancellation :
      {s : WorkflowStateName} → Open s → Moves case_cancelled s WorkflowStateName.cancelled

abbrev Chosen : WorkflowStateName → WorkflowStateName → Option CoordinatorEventType → Type 0
Chosen s t none = Unit {0}
Chosen s t (some e) = Moves e s t

both : (a b : Bool) → a && b ≡ true → (a ≡ true) × (b ≡ true)
both a b h = (ground arith, ground arith)

at_states :
    (e : CoordinatorEventType) (s t s' t' : WorkflowStateName)
    → Moves e s' t'
    → state_eq s s' && state_eq t t' ≡ true
    → Moves e s t
at_states e s t s' t' m h =
    let hs : s ≡ s' = state_eq→≡ s s' (both (state_eq s s') (state_eq t t') h).0 in
    let ht : t ≡ t' = state_eq→≡ t t' (both (state_eq s s') (state_eq t t') h).1 in
    subst (λ u. Moves e u t) (sym hs) (subst (λ u. Moves e s' u) (sym ht) m)

Open-of : (s : WorkflowStateName) → is_open s ≡ true → Open s
Open-of s h = elim (Bool-cases (state_eq s evidence_collected)) [
  | inl e ↦ subst Open (sym (state_eq→≡ s evidence_collected e)) collected
  | inr n ↦ elim (Bool-cases (state_eq s analyzed)) [
    | inl e ↦ subst Open (sym (state_eq→≡ s analyzed e)) diagnosed
    | inr n' ↦ subst Open (sym (state_eq→≡ s plan_proposed (ground arith))) proposed
  ]
]

analysis-Moves :
    (s t : WorkflowStateName)
    → (state_eq s evidence_collected && state_eq t analyzed)
        || (state_eq s analyzed && state_eq t analyzed)
      ≡ true
    → Moves analysis_committed s t
analysis-Moves s t h = elim (Bool-cases (state_eq s evidence_collected && state_eq t analyzed)) [
  | inl e ↦ at_states analysis_committed s t evidence_collected analyzed analysis_of_evidence e
  | inr n ↦ at_states analysis_committed s t analyzed analyzed analysis_again (ground arith)
]

event_for-Chosen : (s t : WorkflowStateName) → Chosen s t (event_for s t)
unfolding event_for
event_for-Chosen s t =
    if_cases (Chosen s t) (state_eq s created && state_eq t evidence_collected) _ _
      (λ h. at_states case_created s t created evidence_collected creation h)
      λ _.
        if_cases (Chosen s t) (state_eq s WorkflowStateName.unset && state_eq t evidence_collected)
          _ _
          (λ h.
            at_states legacy_case_adopted s t WorkflowStateName.unset evidence_collected adoption h)
          λ _.
            if_cases (Chosen s t)
              ((state_eq s evidence_collected && state_eq t analyzed)
                || (state_eq s analyzed && state_eq t analyzed))
              _ _ (λ h. analysis-Moves s t h)
              λ _.
                if_cases (Chosen s t) (state_eq s analyzed && state_eq t plan_proposed) _ _
                  (λ h. at_states plan_committed s t analyzed plan_proposed plan h)
                  λ _.
                    if_cases (Chosen s t) (is_open s && state_eq t WorkflowStateName.failed) _ _
                      (λ h.
                        subst (Moves case_failed s)
                          (sym (state_eq→≡ t WorkflowStateName.failed (both (is_open s) _ h).1))
                          (failure (Open-of s (both (is_open s) _ h).0)))
                      λ _.
                        if_cases (Chosen s t) (is_open s && state_eq t WorkflowStateName.cancelled)
                          _ _
                          (λ h.
                            subst (Moves case_cancelled s)
                              (sym
                                (state_eq→≡ t WorkflowStateName.cancelled (both (is_open s) _ h).1))
                              (cancellation (Open-of s (both (is_open s) _ h).0)))
                          λ _. tt

-- Each event's actors, and the documents that it needs.
moves-Permitted :
    (e : CoordinatorEventType) (s t : WorkflowStateName) (a : ActorType) (f p : ℕ)
    → Moves e s t
    → transition_of (some e) s t a f p ≡ ok tt
    → Permitted s t a f p
unfolding transition_of validate_pr17_coordinator_event_semantics validate
    allowed_actor_for_pr17_event valid_pr17_transition_for_event revision_rules
moves-Permitted e s t system f p creation h = opened by_system
moves-Permitted e s t technician f p creation h = opened by_technician
moves-Permitted e s t _ f p creation h = absurd (let z : ⊥ = ground arith in z)
moves-Permitted e s t system f p adoption h = adopted by_system
moves-Permitted e s t technician f p adoption h = adopted by_technician
moves-Permitted e s t _ f p adoption h = absurd (let z : ⊥ = ground arith in z)
moves-Permitted e s t system zero p analysis_of_evidence h = absurd (let z : ⊥ = ground arith in z)
moves-Permitted e s t system (suc f) p analysis_of_evidence h = first_analysis by_system
moves-Permitted e s t deterministic_analyzer zero p analysis_of_evidence h =
    absurd (let z : ⊥ = ground arith in z)
moves-Permitted e s t deterministic_analyzer (suc f) p analysis_of_evidence h =
    first_analysis by_analyzer
moves-Permitted e s t _ f p analysis_of_evidence h = absurd (let z : ⊥ = ground arith in z)
moves-Permitted e s t system zero p analysis_again h = absurd (let z : ⊥ = ground arith in z)
moves-Permitted e s t system (suc f) p analysis_again h = next_analysis by_system
moves-Permitted e s t deterministic_analyzer zero p analysis_again h =
    absurd (let z : ⊥ = ground arith in z)
moves-Permitted e s t deterministic_analyzer (suc f) p analysis_again h = next_analysis by_analyzer
moves-Permitted e s t _ f p analysis_again h = absurd (let z : ⊥ = ground arith in z)
moves-Permitted e s t system f zero plan h = absurd (let z : ⊥ = ground arith in z)
moves-Permitted e s t system f (suc p) plan h = planned by_system
moves-Permitted e s t technician f zero plan h = absurd (let z : ⊥ = ground arith in z)
moves-Permitted e s t technician f (suc p) plan h = planned by_technician
moves-Permitted e s t deterministic_analyzer f zero plan h = absurd (let z : ⊥ = ground arith in z)
moves-Permitted e s t deterministic_analyzer f (suc p) plan h = planned by_analyzer
moves-Permitted e s t _ f p plan h = absurd (let z : ⊥ = ground arith in z)
moves-Permitted e s t system f p (failure o) h = closed o failed by_system
moves-Permitted e s t technician f p (failure o) h = closed o failed by_technician
moves-Permitted e s t deterministic_analyzer f p (failure o) h = closed o failed by_analyzer
moves-Permitted e s t _ f p (failure collected) h = absurd (let z : ⊥ = ground arith in z)
moves-Permitted e s t _ f p (failure diagnosed) h = absurd (let z : ⊥ = ground arith in z)
moves-Permitted e s t _ f p (failure proposed) h = absurd (let z : ⊥ = ground arith in z)
moves-Permitted e s t system f p (cancellation o) h = closed o cancelled by_system
moves-Permitted e s t technician f p (cancellation o) h = closed o cancelled by_technician
moves-Permitted e s t deterministic_analyzer f p (cancellation o) h = closed o cancelled by_analyzer
moves-Permitted e s t _ f p (cancellation collected) h = absurd (let z : ⊥ = ground arith in z)
moves-Permitted e s t _ f p (cancellation diagnosed) h = absurd (let z : ⊥ = ground arith in z)
moves-Permitted e s t _ f p (cancellation proposed) h = absurd (let z : ⊥ = ground arith in z)

chosen-Permitted :
    (o : Option CoordinatorEventType) (s t : WorkflowStateName) (a : ActorType) (f p : ℕ)
    → Chosen s t o
    → transition_of o s t a f p ≡ ok tt
    → Permitted s t a f p
unfolding transition_of
chosen-Permitted none s t a f p m h = absurd (let z : ⊥ = cc in z)
chosen-Permitted (some e) s t a f p m h = moves-Permitted e s t a f p m h

-- A command's transition is accepted exactly when the relation has it: the opening events by the
-- system or a technician, an analysis of evidence or of an analysis by the system or the analyzer
-- with a finding at hand, a plan after an analysis by any of the three with a plan at hand, and a
-- failure or a cancellation of an open case by any of the three.
pub validate_transition-iff-Permitted :
    (s t : WorkflowStateName) (a : ActorType) (f p : ℕ)
    → (validate_transition s t a f p ≡ ok tt) ↔ Permitted s t a f p
unfolding validate_transition
validate_transition-iff-Permitted s t a f p = (
  chosen-Permitted (event_for s t) s t a f p (event_for-Chosen s t),
  permitted-accepted s t a f p,
)
