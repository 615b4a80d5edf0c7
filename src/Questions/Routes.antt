-- ===== src/Questions/Routes.antt =====
-- web/cui/src/routes/question.routes.ts: the handlers over the tracker, each as a function of the
-- request's fields. An error keeps its code and HTTP status.
use private_agent_platform.Base.{
  String, Bool, true, false, List, Option, none, some, if◌then◌else◌, is_truthy, ℕ,
}
use private_agent_platform.Types.{Json, arr, obj, cons}
use private_agent_platform.Questions.{
  QuestionRequest, QuestionStatus, pending, Tracker, status_eq, add_question, get_question,
  get_questions, answer_question,
}

pub data Reply (A : Type 0) : Type 0 where
  json : A → Reply A
  fail : String → ℕ → Reply A

abbrev is_nonempty_array : Json → Bool
is_nonempty_array (arr (cons x xs)) = true
is_nonempty_array _ = false

-- `answers && typeof answers === 'object'`
abbrev pub is_object : Json → Bool
is_object (arr xs) = true
is_object (obj fs) = true
is_object _ = false

-- `POST /notify`
unfoldable pub notify : String → String → Json → Option String → Tracker → Tracker × Reply String
notify id now questions none m =
    if is_nonempty_array questions
    then (m, fail "MISSING_STREAMING_ID" 400)
    else (m, fail "MISSING_QUESTIONS" 400)
notify id now questions (some streaming_id) m =
    if is_nonempty_array questions
    then if is_truthy streaming_id
      then (let (m', request, event) = add_question id now questions streaming_id m in
          (m', json request.id))
      else (m, fail "MISSING_STREAMING_ID" 400)
    else (m, fail "MISSING_QUESTIONS" 400)

-- `GET /:id`
unfoldable pub get_by_id : String → Tracker → Reply QuestionRequest
get_by_id id m = elim (get_question id m) [
  | none ↦ fail "QUESTION_NOT_FOUND" 404
  | some question ↦ json question
]

-- `GET /`
unfoldable pub list : Option String → Option QuestionStatus → Tracker → Reply (List QuestionRequest)
list streaming_id status m = json (get_questions streaming_id status m)

-- `POST /:id/answer`
unfoldable pub answer : String → Json → Tracker → Tracker × Reply Bool
answer id answers m =
    if is_object answers
    then elim (get_question id m) [
      | none ↦ (m, fail "QUESTION_NOT_FOUND" 404)
      | some question ↦
          if status_eq question.status pending
          then (let (m', updated, event) = answer_question id answers m in
              if updated then (m', json true) else (m', fail "UPDATE_FAILED" 500))
          else (m, fail "QUESTION_NOT_PENDING" 400)
    ]
    else (m, fail "MISSING_ANSWERS" 400)
