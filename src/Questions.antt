-- ===== src/Questions.antt =====
-- web/cui/src/services/question-tracker.ts: the questions that running conversations ask the user.
pub mod Routes
pub mod Answers
pub mod Tracked
use private_agent_platform.Base.{
  ℕ, String, Bool, true, false, List, [], ◌∷◌, Option, none, some, ◌==◌, if◌then◌else◌, is_truthy,
  filter, length,
}
use private_agent_platform.JsMap
use private_agent_platform.JsMap.{JsMap}
use private_agent_platform.JsMap.Index.{matching, delete_all}
use private_agent_platform.Types.{Json}

pub data QuestionStatus : Type 0 where
  pending answered : QuestionStatus

-- `questions` is the JSON array of the request's body.
pub record QuestionRequest : Type 0 where
  pub id : String
  pub streaming_id : String
  pub questions : Json
  pub timestamp : String
  pub status : QuestionStatus
  pub answers : Option Json

pub data Event : Type 0 where
  question_request : QuestionRequest → Event
  question_answered : QuestionRequest → Event

abbrev pub Tracker : Type 0
Tracker = JsMap QuestionRequest

abbrev pub status_eq : QuestionStatus → QuestionStatus → Bool
status_eq pending pending = true
status_eq answered answered = true
status_eq _ _ = false

abbrev pub new_question : String → String → Json → String → QuestionRequest
new_question id now questions streaming_id = record {
  id = id;
  streaming_id = streaming_id;
  questions = questions;
  timestamp = now;
  status = pending;
  answers = none;
}

-- `id` is the fresh UUID.
pub add_question : String → String → Json → String → Tracker → Tracker × QuestionRequest × Event
add_question id now questions streaming_id m =
    let request = new_question id now questions streaming_id in
    (JsMap.set id request m, request, question_request request)

unfoldable pub get_question : String → Tracker → Option QuestionRequest
get_question id m = JsMap.get id m

abbrev pub by_streaming_id : Option String → QuestionRequest → Bool
by_streaming_id none r = true
by_streaming_id (some s) r = if is_truthy s then r.streaming_id == s else true

abbrev pub by_status : Option QuestionStatus → QuestionRequest → Bool
by_status none r = true
by_status (some s) r = status_eq r.status s

pub get_questions : Option String → Option QuestionStatus → Tracker → List QuestionRequest
get_questions streaming_id status m =
    filter (by_status status) (filter (by_streaming_id streaming_id) (JsMap.values m))

unfoldable pub answer_question : String → Json → Tracker → Tracker × Bool × Option Event
answer_question id answers m = elim (JsMap.get id m) [
  | none ↦ (m, false, none)
  | some request ↦
      if status_eq request.status pending
      then (let request' = record request { status = answered; answers = some answers } in
          (JsMap.set id request' m, true, some (question_answered request')))
      else (m, false, none)
]

pub remove_questions_by_streaming_id : String → Tracker → Tracker × ℕ
unfolding matching delete_all
remove_questions_by_streaming_id streaming_id m =
    let to_remove = matching (λ r. r.streaming_id == streaming_id) m in
    (delete_all to_remove m, length to_remove)

unfoldable pub clear : Tracker → Tracker
clear m = []

unfoldable pub size : Tracker → ℕ
size m = JsMap.size m
