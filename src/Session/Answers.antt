-- ===== src/Session/Answers.antt =====
-- The answer list of session/model.go: an answer to a question replaces the one before it.
use effexor_win_doctor.Prelude.{
  ℕ, String, suc, max, ◌≡◌, refl, is_some, Option, none, some, List, [], ◌∷◌, arith, ◌==◌, eq_iff,
  if◌then◌else◌,
}
use effexor_win_doctor.Session.{Answer, put_answer, has_answer_in}

-- The value that the list has for a question.
pub value_of : List Answer → String → Option String
value_of [] question = none
value_of (a ∷ answers) question =
    if a.question_id == question then some a.value else value_of answers question

-- How many answers the list has to a question.
unfoldable pub answers_to : List Answer → String → ℕ
answers_to [] question = 0
answers_to (a ∷ answers) question =
    let rest = answers_to answers question in if a.question_id == question then suc rest else rest

-- The table of answers reads back what is put: the question that is answered has the new value, and
-- every other question keeps the one that it had.
pub value_of-put_answer :
    (answers : List Answer) (question other value : String) (now : ℕ)
    → value_of (put_answer answers question value now) other
      ≡ (if question == other then some value else value_of answers other)
unfolding put_answer value_of
value_of-put_answer [] question other value now = refl
value_of-put_answer (a ∷ answers) question other value now = ground (
  arith,
  eq_iff a.question_id question,
  eq_iff a.question_id other,
  eq_iff question other,
  value_of-put_answer answers question other value now,
)

-- At most one answer to a question is added, and only where there was none.
pub answers_to-put_answer :
    (answers : List Answer) (question other value : String) (now : ℕ)
    → answers_to (put_answer answers question value now) other
      ≡ (if question == other then max 1 (answers_to answers other) else answers_to answers other)
unfolding put_answer answers_to
answers_to-put_answer [] question other value now = ground arith
answers_to-put_answer (a ∷ answers) question other value now = ground (
  arith,
  eq_iff a.question_id question,
  eq_iff a.question_id other,
  eq_iff question other,
  answers_to-put_answer answers question other value now,
)

pub has_answer_in-eq-is_some :
    (answers : List Answer) (question : String)
    → has_answer_in answers question ≡ is_some (value_of answers question)
unfolding has_answer_in value_of
has_answer_in-eq-is_some [] question = refl
has_answer_in-eq-is_some (a ∷ answers) question =
    ground (arith, has_answer_in-eq-is_some answers question)
