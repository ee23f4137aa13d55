-- ===== src/Session/Recorded.antt =====
-- What one answer does to a session, `RecordAnswer` of internal/session/model.go.
use effexor_win_doctor.Prelude.{
  String, ◌≡◌, true, Option, none, some, [], ◌∷◌, ◌==◌, if◌then◌else◌, contains_string,
}
use effexor_win_doctor.Session.{Session, SessionError}
use effexor_win_doctor.Session.Answers.{value_of}

-- What `RecordAnswer` does to the answers that a question has.
abbrev pub Recorded : Session → String → String → String → Session × Option SessionError → Type 0
Recorded s question answer_type value (t, none) =
    (v : String) × (if answer_type == "yes_no"
      then (contains_string ("yes" ∷ "no" ∷ "unknown" ∷ []) v ≡ true)
      else (v ≡ value))
    × ((other : String)
        → value_of t.answers other
          ≡ (if question == other then some v else value_of s.answers other))
Recorded s question answer_type value (t, some e) = t ≡ s
