-- ===== src/Session/History.antt =====
-- What holds of a session of session/model.go after any calls, failed ones included.
use effexor_win_doctor.Prelude.{
  ℕ, String, suc, ◌+◌, ◌≤◌, ◌≡◌, refl, false, Option, none, some, List, [], ◌∷◌, ◌++◌, arith, ◌==◌,
  if◌then◌else◌, ltb, rune_count, trim_space, length, length-append, Result, ok, err, is_some,
  if_cases, ◌||◌, ap, sym, subst,
}
use effexor_win_doctor.Session.{
  Session, Assessment, Symptom, Answer, Event, SessionError, new, add_symptom, record_answer,
  set_assessment, add_event, put_answer, touch, add_symptom_as, store_answer, new_from,
  checked_value,
}
use effexor_win_doctor.Session.Answers.{answers_to, answers_to-put_answer}

-- A call of the client. The random bytes of a symptom's id are part of the call.
pub data Call : Type 0 where
  add_symptom_call : String → ℕ → Option (List ℕ) → Call
  record_answer_call : String → String → String → ℕ → Call
  set_assessment_call : Assessment → String → ℕ → Call
  add_event_call : String → String → ℕ → Call

unfoldable pub call : Session → Call → Session × Option SessionError
call s (add_symptom_call text now entropy) = add_symptom s text now entropy
call s (record_answer_call q v t now) = record_answer s q v t now
call s (set_assessment_call a kind now) = (set_assessment s a kind now, none)
call s (add_event_call kind reference now) = (add_event s kind reference now, none)

unfoldable pub calls : Session → List Call → Session
calls s [] = s
calls s (c ∷ cs) = calls (call s c).0 cs

-- The number of calls that return no error.
unfoldable pub accepted : Session → List Call → ℕ
accepted s [] = 0
accepted s (c ∷ cs) =
    let rest = accepted (call s c).0 cs in if is_some (call s c).1 then rest else suc rest

abbrev pub last_at : List Event → Option ℕ
last_at [] = none
last_at (e ∷ []) = some e.at
last_at (e ∷ f ∷ es) = last_at (f ∷ es)

last_at-append : (es : List Event) (e : Event) → last_at (es ++ e ∷ []) ≡ some e.at
last_at-append [] e = refl
last_at-append (f ∷ []) e = refl
last_at-append (f ∷ g ∷ es) e = last_at-append (g ∷ es) e

-- A symptom's text is not blank and has at most 2000 characters.
abbrev pub SymptomsInBounds : List Symptom → Type 0
SymptomsInBounds [] = Unit
SymptomsInBounds (x ∷ xs) =
    ((x.text == "") ≡ false) × (rune_count x.text ≤ 2000) × SymptomsInBounds xs

SymptomsInBounds-append :
    (xs : List Symptom) (x : Symptom)
    → SymptomsInBounds xs
    → (x.text == "") ≡ false
    → rune_count x.text ≤ 2000
    → SymptomsInBounds (xs ++ x ∷ [])
SymptomsInBounds-append [] x h a b = (a, b, tt)
SymptomsInBounds-append (y ∷ xs) x h a b = (h.0, h.1, SymptomsInBounds-append xs x h.2 a b)

pub record IsValid (s : Session) : Type 0 where
  pub stamped : last_at s.events ≡ some s.updated_at
  pub symptoms_fit : SymptomsInBounds s.symptoms
  pub one_answer : (question : String) → answers_to s.answers question ≤ 1

touch-IsValid :
    (s : Session) (now : ℕ) (kind reference : String)
    → SymptomsInBounds s.symptoms
    → ((question : String) → answers_to s.answers question ≤ 1)
    → IsValid (touch s now kind reference)
unfolding touch
touch-IsValid s now kind reference fit one = record {
  stamped = last_at-append s.events (record { at = now; kind = kind; reference = reference });
  symptoms_fit = fit;
  one_answer = one;
}

-- What a call may do: a failed call changes nothing, and one that succeeds adds one event and keeps
-- the session well formed.
abbrev Effect : Session → Session × Option SessionError → Type 0
Effect s (t, none) = (length t.events ≡ suc (length s.events)) × IsValid t
Effect s (t, some e) = t ≡ s

touch-Effect :
    (s t : Session) (now : ℕ) (kind reference : String)
    → t.events ≡ s.events
    → SymptomsInBounds t.symptoms
    → ((question : String) → answers_to t.answers question ≤ 1)
    → Effect s (touch t now kind reference, none)
unfolding touch
touch-Effect s t now kind reference e fit one = (
  rw (length-append t.events (record { at = now; kind = kind; reference = reference } ∷ []))
      (omega (arith, ap (length {A = Event}) e)),
  touch-IsValid t now kind reference fit one,
)

add_symptom_as-Effect :
    (s : Session) (text : String) (now : ℕ) (id : Option String)
    → IsValid s
    → (text == "") ≡ false
    → rune_count text ≤ 2000
    → Effect s (add_symptom_as s text now id)
unfolding add_symptom_as
add_symptom_as-Effect s text now none v e b = refl
add_symptom_as-Effect s text now (some id) v e b =
    let x : Symptom = record { id = id; text = text; recorded_at = now } in
    touch-Effect s (record s { symptoms = s.symptoms ++ x ∷ [] }) now "symptom_recorded" id refl
      (SymptomsInBounds-append s.symptoms x v.symptoms_fit e b) v.one_answer

add_symptom-Effect :
    (s : Session) (raw : String) (now : ℕ) (entropy : Option (List ℕ))
    → IsValid s
    → Effect s (add_symptom s raw now entropy)
unfolding add_symptom
add_symptom-Effect s raw now entropy v =
    let text = trim_space raw in
    if_cases (Effect s) (text == "") _ _ (λ _. refl)
      λ e.
        if_cases (Effect s) (ltb 2000 (rune_count text)) _ _ (λ _. refl)
          λ b. add_symptom_as-Effect s text now _ v e (ground arith)

put_answer_one :
    (answers : List Answer) (question value : String) (now : ℕ)
    → ((q : String) → answers_to answers q ≤ 1)
    → (q : String) → answers_to (put_answer answers question value now) q ≤ 1
put_answer_one answers question value now one q =
    ground (arith, answers_to-put_answer answers question q value now, one q)

store_answer-Effect :
    (s : Session) (question : String) (now : ℕ) (value : Option String)
    → IsValid s
    → Effect s (store_answer s question now value)
unfolding store_answer
store_answer-Effect s question now none v = refl
store_answer-Effect s question now (some value) v =
    touch-Effect s (record s { answers = put_answer s.answers question value now }) now
      "question_answered" question refl v.symptoms_fit
      (put_answer_one s.answers question value now v.one_answer)

record_answer-Effect :
    (s : Session) (q a t : String) (now : ℕ) → IsValid s → Effect s (record_answer s q a t now)
unfolding record_answer
record_answer-Effect s q a t now v =
    let question = trim_space q in
    let value = trim_space a in
    if_cases (Effect s) (question == "" || value == "") _ _ (λ _. refl)
      λ _.
        if_cases (Effect s) (ltb 2000 (rune_count value)) _ _ (λ _. refl)
          λ _. store_answer-Effect s question now (checked_value t value) v

call-Effect : (s : Session) (c : Call) → IsValid s → Effect s (call s c)
unfolding call set_assessment add_event
call-Effect s (add_symptom_call text now entropy) v = add_symptom-Effect s text now entropy v
call-Effect s (record_answer_call q a t now) v = record_answer-Effect s q a t now v
call-Effect s (set_assessment_call a kind now) v =
    touch-Effect s (record s { latest_assessment = some a }) now kind a.mode refl v.symptoms_fit
      v.one_answer
call-Effect s (add_event_call kind reference now) v =
    touch-Effect s s now kind reference refl v.symptoms_fit v.one_answer

Effect-IsValid :
    (s : Session) (r : Session × Option SessionError) → IsValid s → Effect s r → IsValid r.0
Effect-IsValid s (t, none) v e = e.1
Effect-IsValid s (t, some x) v e = subst IsValid (sym e) v

abbrev Started : Result SessionError Session → Type 0
Started (ok s) = IsValid s × (length s.events ≡ 1)
Started (err e) = Unit

new_from-Started :
    (report_id : String) (now : ℕ) (id : Option String) → Started (new_from report_id now id)
unfolding new_from
new_from-Started report_id now none = tt
new_from-Started report_id now (some id) = (
  record { stamped = refl; symptoms_fit = tt; one_answer = λ q. unfold answers_to in omega arith },
  refl,
)

new-Started :
    (report_id : String) (now : ℕ) (entropy : Option (List ℕ)) → Started (new report_id now entropy)
unfolding new
new-Started report_id now entropy =
    if_cases Started (trim_space report_id == "") _ _ (λ _. tt)
      λ _. new_from-Started report_id now _

calls-IsValid : (s : Session) (cs : List Call) → IsValid s → IsValid (calls s cs)
unfolding calls
calls-IsValid s [] v = v
calls-IsValid s (c ∷ cs) v =
    calls-IsValid (call s c).0 cs (Effect-IsValid s (call s c) v (call-Effect s c v))

length-events-calls :
    (s : Session) (cs : List Call)
    → IsValid s
    → length (calls s cs).events ≡ length s.events + accepted s cs
unfolding calls accepted
length-events-calls s [] v = omega arith
length-events-calls s (c ∷ cs) v =
    counted (call s c) (call-Effect s c v)
      (length-events-calls (call s c).0 cs (Effect-IsValid s (call s c) v (call-Effect s c v)))
  where
    counted :
        (r : Session × Option SessionError)
        → Effect s r
        → length (calls r.0 cs).events ≡ length r.0.events + accepted r.0 cs
        → length (calls r.0 cs).events
          ≡ length s.events + (if is_some r.1 then accepted r.0 cs else suc (accepted r.0 cs))
    counted (t, none) e h = omega (arith, e.0, h)
    counted (t, some x) e h = omega (arith, h, ap (λ (u : Session). length u.events) e)

-- A session that `New` made, after any calls: the last event's time is the update time, every
-- symptom is non-blank and within 2000 characters, no question has two answers, and there is one
-- event for the start and one for each call that returned no error.
pub session_history :
    (report_id : String) (now : ℕ) (entropy : Option (List ℕ)) (cs : List Call) {s : Session}
    → new report_id now entropy ≡ ok s
    → IsValid (calls s cs) × (length (calls s cs).events ≡ suc (accepted s cs))
session_history report_id now entropy cs {s} h =
    let started = subst Started h (new-Started report_id now entropy) in
    (calls-IsValid s cs started.0, omega (arith, length-events-calls s cs started.0, started.1))

-- A call that returns an error leaves a well-formed session exactly as it was.
pub failed_call_unchanged :
    (s : Session) (c : Call) {e : SessionError}
    → IsValid s
    → (call s c).1 ≡ some e
    → (call s c).0 ≡ s
failed_call_unchanged s c v h = unchanged (call s c) (call-Effect s c v) h
  where
    unchanged :
        (r : Session × Option SessionError) {x : SessionError} → Effect s r → r.1 ≡ some x → r.0 ≡ s
    unchanged (t, none) e k = absurd (let z : ⊥ = cc in z)
    unchanged (t, some x) e k = e
