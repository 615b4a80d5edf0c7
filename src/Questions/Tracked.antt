-- ===== src/Questions/Tracked.antt =====
-- The operations of question-tracker.ts and question.routes.ts keep the map of questions well formed.
use private_agent_platform.Base.{String, Option, none, some, ◌≡◌, refl, Bool-cases, inl, inr}
use private_agent_platform.JsMap
use private_agent_platform.JsMap.Index.{set-IsIndexed, get-IsIndexed}
use private_agent_platform.JsMap.Laws.{set-IsDistinct}
use private_agent_platform.Types.{Json}
use private_agent_platform.Questions.{
  QuestionRequest, pending, Tracker, add_question, get_question, status_eq,
}
use private_agent_platform.Questions.Routes.{answer, is_object}
use private_agent_platform.Questions.Answers.{IsTracked, with_answers, outcome, answer-outcome}

-- A new question keeps the map tracked.
pub add_question-IsTracked :
    (id now : String) (questions : Json) (streaming : String) (m : Tracker)
    → IsTracked m
    → IsTracked (add_question id now questions streaming m).0
unfolding add_question
add_question-IsTracked id now questions streaming m v = record {
  indexed = set-IsIndexed (λ r. r.id) id _ m refl v.indexed;
  distinct = set-IsDistinct id _ m v.distinct;
}

stored-IsTracked :
    (id : String) (answers : Json) (m : Tracker) (found : Option QuestionRequest)
    → IsTracked m
    → JsMap.get id m ≡ found
    → IsTracked (outcome id answers m found).0
stored-IsTracked id answers m none v e = v
stored-IsTracked id answers m (some r) v e = elim (Bool-cases (status_eq r.status pending)) [
  | inr off ↦ rw off v
  | inl on ↦ rw on (record {
    indexed =
        set-IsIndexed (λ q. q.id) id (with_answers answers r) m
          (get-IsIndexed (λ q. q.id) id r m v.indexed e) v.indexed;
    distinct = set-IsDistinct id (with_answers answers r) m v.distinct;
  })
]

-- An answer keeps the map tracked.
pub answer-IsTracked :
    (id : String) (answers : Json) (m : Tracker) → IsTracked m → IsTracked (answer id answers m).0
unfolding get_question
answer-IsTracked id answers m v =
    rw (answer-outcome id answers m) (elim (Bool-cases (is_object answers)) [
      | inr off ↦ rw off v
      | inl on ↦ rw on (stored-IsTracked id answers m (JsMap.get id m) v refl)
    ])
