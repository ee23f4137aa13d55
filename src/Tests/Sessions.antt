-- ===== src/Tests/Sessions.antt =====
-- The UI queue and the diagnosis session on concrete calls.
use effexor_win_doctor.Prelude.{
  ℕ, String, suc, ◌≡◌, refl, true, Option, none, some, List, [], ◌∷◌, ◌++◌, ok, length, ◌||◌,
  if◌then◌else◌, ◌==◌, trim_space, hex_encode, to_lower,
}
use effexor_win_doctor.UiQueue.Delivery.{
  Op, progress, terminal, drained, received, start, run, step, pending, first_pushed,
  terminal_exactly_once, pending_has_wakeup, no_progress_after_terminal,
}
use effexor_win_doctor.Session.{
  Session, Answer, not_yes_no, add_symptom, new, record_answer, put_answer,
}
use effexor_win_doctor.Session.Answers.{value_of, value_of-put_answer}
use effexor_win_doctor.Session.History.{
  Call, add_symptom_call, record_answer_call, call, calls, accepted, IsValid, session_history,
  failed_call_unchanged,
}
use effexor_win_doctor.Session.Recorded.{Recorded}

abbrev ops : List (Op ℕ String)
ops = progress 10 ∷ progress 20 ∷ terminal "done" ∷ terminal "late" ∷ received ∷ drained ∷ []

terminal_exactly_once_example :
    (run start ops).finished ++ pending (run start ops).queue.terminal
    ≡ pending (first_pushed none ops)
terminal_exactly_once_example = terminal_exactly_once ops

abbrev started : List (Op ℕ String)
started = progress 10 ∷ []

pending_has_wakeup_example : (run start started).queue.signal || (run start started).awake ≡ true
unfolding run step start
pending_has_wakeup_example = pending_has_wakeup started refl

abbrev later : List (Op ℕ String)
later = progress 30 ∷ drained ∷ []

no_progress_after_terminal_example :
    (run (step (run start started) (terminal "done")) later).shown ≡ (run start started).shown
no_progress_after_terminal_example = no_progress_after_terminal started later "done" tt

abbrev bytes : Option (List ℕ)
bytes = some (1 ∷ 2 ∷ 3 ∷ 4 ∷ 5 ∷ 6 ∷ 7 ∷ 8 ∷ [])

abbrev calls_made : List Call
calls_made =
    add_symptom_call "no boot" 11 bytes
    ∷ record_answer_call "q1" "yes" "yes_no" 12
    ∷ record_answer_call "q1" "maybe" "yes_no" 13
    ∷ []

abbrev begun : Session
begun = record {
  schema = "0.2.0";
  session_id = "session-0102030405060708";
  report_id = "report-1";
  created_at = 10;
  updated_at = 10;
  symptoms = [];
  answers = [];
  events = record { at = 10; kind = "session_started"; reference = "" } ∷ [];
  latest_assessment = none;
}

begun_test : new "report-1" 10 bytes ≡ ok begun
unfolding new trim_space hex_encode
begun_test = refl

session_history_example :
    IsValid (calls begun calls_made)
    × (length (calls begun calls_made).events ≡ suc (accepted begun calls_made))
session_history_example = session_history "report-1" 10 bytes calls_made begun_test

accepted_test : accepted begun calls_made ≡ 2
unfolding accepted call add_symptom record_answer trim_space hex_encode to_lower
accepted_test = refl

begun-IsValid : IsValid begun
unfolding calls
begun-IsValid = (session_history "report-1" 10 bytes [] begun_test).0

refused_test : (call begun (record_answer_call "q1" "maybe" "yes_no" 13)).1 ≡ some (not_yes_no "q1")
unfolding call record_answer trim_space to_lower
refused_test = refl

failed_call_unchanged_example : (call begun (record_answer_call "q1" "maybe" "yes_no" 13)).0 ≡ begun
failed_call_unchanged_example =
    failed_call_unchanged begun (record_answer_call "q1" "maybe" "yes_no" 13) begun-IsValid
      refused_test

abbrev two_answers : List Answer
two_answers =
    record { question_id = "q1"; value = "yes"; recorded_at = 1 }
    ∷ record { question_id = "q2"; value = "no"; recorded_at = 2 }
    ∷ []

value_of-put_answer_example :
    value_of (put_answer two_answers "q1" "no" 3) "q2"
    ≡ (if "q1" == "q2" then some "no" else value_of two_answers "q2")
value_of-put_answer_example = value_of-put_answer two_answers "q1" "q2" "no" 3
