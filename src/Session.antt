-- ===== src/Session.antt =====
-- The technician's session, internal/session/model.go, with the assessment that it stores,
-- internal/diagnosis/model.go. A time is its instant, so `UTC()` is the identity; the current time
-- and the random bytes are arguments (`none`: the reader failed). A method that returns an error
-- returns the session that it leaves beside it.
pub mod Answers
pub mod History
pub mod Recorded
use effexor_win_doctor.Prelude.{
  ℕ, String, ◌+◌, str_append, Bool, true, false, Option, none, some, List, [], ◌∷◌, ◌++◌, ◌&&◌,
  ◌||◌, not, ltb, ◌==◌, if◌then◌else◌, rune_count, trim_space, to_lower, hex_encode, Result, ok,
  err,
}

-- diagnosis/model.go
pub record Summary : Type 0 where
  pub headline : String
  pub highest_severity : String
  pub finding_count : ℕ

pub record AssessmentFinding : Type 0 where
  pub id : String
  pub title : String
  pub severity : String
  pub confidence : String
  pub rationale : String
  pub evidence_refs : Option (List String)
  pub source_refs : Option (List String)

pub record Source : Type 0 where
  pub title : String
  pub url : String
  pub domain : String

pub record Question : Type 0 where
  pub id : String
  pub prompt : String
  pub reason : String
  pub answer_type : String

pub record NextStep : Type 0 where
  pub id : String
  pub title : String
  pub operation : String
  pub risk : String
  pub requires_confirmation : Bool
  pub rationale : String

pub record Assessment : Type 0 where
  pub schema_version : String
  pub report_id : String
  pub generated_at : ℕ
  pub mode : String
  pub summary : Summary
  pub findings : List AssessmentFinding
  pub questions : List Question
  pub next_steps : List NextStep
  pub limitations : List String
  pub sources : List Source

-- session/model.go
abbrev pub schema_version : String
schema_version = "0.2.0"

pub record Symptom : Type 0 where
  pub id : String
  pub text : String
  pub recorded_at : ℕ

pub record Answer : Type 0 where
  pub question_id : String
  pub value : String
  pub recorded_at : ℕ

pub record Event : Type 0 where
  pub at : ℕ
  pub kind : String
  pub reference : String

pub record Session : Type 0 where
  pub schema : String
  pub session_id : String
  pub report_id : String
  pub created_at : ℕ
  pub updated_at : ℕ
  pub symptoms : List Symptom
  pub answers : List Answer
  pub events : List Event
  pub latest_assessment : Option Assessment

pub data SessionError : Type 0 where
  report_id_required session_id_required symptom_empty symptom_too_long no_entropy : SessionError
  answer_required answer_too_long : SessionError
  unsupported_schema : String → SessionError
  other_report : String → String → SessionError
  not_yes_no : String → SessionError

pub random_id : String → Option (List ℕ) → Option String
random_id prefix none = none
random_id prefix (some bytes) = some (str_append prefix (str_append "-" (hex_encode bytes)))

pub touch : Session → ℕ → String → String → Session
touch s now kind reference = record s {
  updated_at = now;
  events = s.events ++ record { at = now; kind = kind; reference = reference } ∷ [];
}

pub new_from : String → ℕ → Option String → Result SessionError Session
new_from report_id now none = err no_entropy
new_from report_id now (some id) = ok (record {
  schema = schema_version;
  session_id = id;
  report_id = report_id;
  created_at = now;
  updated_at = now;
  symptoms = [];
  answers = [];
  events = record { at = now; kind = "session_started"; reference = "" } ∷ [];
  latest_assessment = none;
})

unfoldable pub new : String → ℕ → Option (List ℕ) → Result SessionError Session
unfolding new_from random_id
new report_id now entropy =
    if trim_space report_id == ""
    then err report_id_required
    else new_from report_id now (random_id "session" entropy)

pub validate : Session → String → Option SessionError
validate s report_id =
    if not (s.schema == schema_version)
    then some (unsupported_schema s.schema)
    else if s.session_id == ""
    then some session_id_required
    else if not (s.report_id == report_id)
    then some (other_report s.report_id report_id)
    else none

pub add_symptom_as : Session → String → ℕ → Option String → Session × Option SessionError
unfolding touch
add_symptom_as s text now none = (s, some no_entropy)
add_symptom_as s text now (some id) =
    let added : Symptom = record { id = id; text = text; recorded_at = now } in
    (touch (record s { symptoms = s.symptoms ++ added ∷ [] }) now "symptom_recorded" id, none)

unfoldable pub add_symptom : Session → String → ℕ → Option (List ℕ) → Session × Option SessionError
unfolding add_symptom_as random_id
add_symptom s raw now entropy =
    let text = trim_space raw in
    if text == ""
    then (s, some symptom_empty)
    else if ltb 2000 (rune_count text)
    then (s, some symptom_too_long)
    else add_symptom_as s text now (random_id "symptom" entropy)

-- The loop over the answers: the first one to the question is overwritten, or one is appended.
pub put_answer : List Answer → String → String → ℕ → List Answer
put_answer [] question value now =
    record { question_id = question; value = value; recorded_at = now } ∷ []
put_answer (a ∷ answers) question value now =
    if a.question_id == question
    then record a { value = value; recorded_at = now } ∷ answers
    else a ∷ put_answer answers question value now

-- The value that is kept, if it is one of the answers to a yes-or-no question.
pub checked_value : String → String → Option String
checked_value answer_type value =
    if answer_type == "yes_no"
    then (let lower = to_lower value in
        if lower == "yes" || lower == "no" || lower == "unknown" then some lower else none)
    else some value

pub store_answer : Session → String → ℕ → Option String → Session × Option SessionError
unfolding touch put_answer
store_answer s question now none = (s, some (not_yes_no question))
store_answer s question now (some value) = (
  touch (record s { answers = put_answer s.answers question value now }) now "question_answered"
      question,
  none,
)

unfoldable pub record_answer :
    Session → String → String → String → ℕ → Session × Option SessionError
unfolding store_answer checked_value
record_answer s raw_question raw_value answer_type now =
    let question = trim_space raw_question in
    let value = trim_space raw_value in
    if question == "" || value == ""
    then (s, some answer_required)
    else if ltb 2000 (rune_count value)
    then (s, some answer_too_long)
    else store_answer s question now (checked_value answer_type value)

pub has_answer_in : List Answer → String → Bool
has_answer_in [] question = false
has_answer_in (a ∷ answers) question =
    if a.question_id == question then true else has_answer_in answers question

pub has_answer : Session → String → Bool
unfolding has_answer_in
has_answer s question = has_answer_in s.answers question

pub set_assessment : Session → Assessment → String → ℕ → Session
unfolding touch
set_assessment s a kind now = touch (record s { latest_assessment = some a }) now kind a.mode

pub add_event : Session → String → String → ℕ → Session
unfolding touch
add_event s kind reference now = touch s now kind reference
