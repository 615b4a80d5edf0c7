-- ===== src/Questions/Answers.antt =====
-- Lemmas on answers and on the removal of a stream's questions (question-tracker.ts,
-- question.routes.ts).
use private_agent_platform.Base.{
  ◌+◌, String, Bool, true, not, Option, none, some, ◌==◌, ◌≡◌, refl, sym, ◌∙◌, if◌then◌else◌,
  eq_refl, arith,
}
use private_agent_platform.JsMap
use private_agent_platform.JsMap.Index.{
  keep, IsIndexed, filter-IsIndexed, filter-IsDistinct, get-filter, delete_all, delete_all-matching,
  matching-filter, length-matching,
}
use private_agent_platform.JsMap.Laws.{get-set, IsDistinct}
use private_agent_platform.Types.{Json}
use private_agent_platform.Questions
use private_agent_platform.Questions.{
  QuestionRequest, QuestionStatus, pending, answered, Tracker, get_question, answer_question,
  remove_questions_by_streaming_id, add_question, status_eq,
}
use private_agent_platform.Questions.Routes.{Reply, json, fail, answer, get_by_id, is_object}

-- Every request stands under its own id, and no id stands twice.
pub record IsTracked (m : Tracker) : Type 0 where
  pub indexed : IsIndexed (λ r. r.id) m
  pub distinct : IsDistinct m

-- The request with its answers.
abbrev pub with_answers : Json → QuestionRequest → QuestionRequest
with_answers answers r = record r { status = answered; answers = some answers }

-- The outcome of an answer, by the stored request.
abbrev pub outcome : String → Json → Tracker → Option QuestionRequest → Tracker × Reply Bool
outcome id answers m none = (m, fail "QUESTION_NOT_FOUND" 404)
outcome id answers m (some r) =
    if status_eq r.status pending
    then (JsMap.set id (with_answers answers r) m, json true)
    else (m, fail "QUESTION_NOT_PENDING" 400)

-- The answer endpoint answers 400 for answers that are no object, 404 for an unknown id, 400 for a
-- question that was answered before, in these cases with the map unchanged; otherwise it stores the
-- answers in that one request and succeeds. It never answers 500.
pub answer-outcome :
    (id : String) (answers : Json) (m : Tracker)
    → answer id answers m ≡ (
        if is_object answers
        then outcome id answers m (get_question id m)
        else (m, fail "MISSING_ANSWERS" 400))
unfolding answer answer_question get_question
answer-outcome id answers m = ground arith

answer-stored :
    (id : String) (answers : Json) (m m' : Tracker)
    → answer id answers m ≡ (m', json true)
    → (r : QuestionRequest) × (get_question id m ≡ some r)
      × (r.status ≡ pending)
      × (m' ≡ JsMap.set id (with_answers answers r) m)
unfolding get_question
answer-stored id answers m m' e =
    inversion (JsMap.get id m) refl (sym (answer-outcome id answers m) ∙ e)
  where
    inversion :
        (found : Option QuestionRequest)
        → JsMap.get id m ≡ found
        → (if is_object answers
            then outcome id answers m found
            else (m, fail "MISSING_ANSWERS" 400))
          ≡ (m', json true)
        → (r : QuestionRequest) × (JsMap.get id m ≡ some r)
          × (r.status ≡ pending)
          × (m' ≡ JsMap.set id (with_answers answers r) m)
    inversion none f h = ground arith
    inversion (some r) f h = (r, f, ground arith, ground arith)

-- The asker polls by id: once an answer was accepted, the poll for that id gives the question as
-- answered with just these answers, every other poll gives what it gave before, and a second
-- answer is refused with 400 and changes nothing.
pub answer_once :
    (id j : String) (answers answers' : Json) (m m' : Tracker)
    → is_object answers' ≡ true
    → answer id answers m ≡ (m', json true)
    → (r : QuestionRequest) × (get_by_id id m ≡ json r)
      × (get_by_id j m' ≡ (if id == j then json (with_answers answers r) else get_by_id j m))
      × (answer id answers' m' ≡ (m', fail "QUESTION_NOT_PENDING" 400))
unfolding get_by_id get_question
answer_once id j answers answers' m m' ob e =
    let (r, found, was_pending, stored) = answer-stored id answers m m' e in
    (
      r,
      rw (found, get_by_id),
      ground (arith, get-set id j (with_answers answers r) m),
      ground (
        arith,
        answer-outcome id answers' m',
        get-set id id (with_answers answers r) m,
        eq_refl id,
      ),
    )

-- When a stream ends, exactly the questions of that stream go, the count that is returned is the
-- number of questions that went, and the map stays tracked.
pub remove_questions-get :
    (streaming j : String) (m : Tracker)
    → IsTracked m
    → let (m', removed) = remove_questions_by_streaming_id streaming m in
      IsTracked m'
      × (get_question j m' ≡ keep (λ r. not (r.streaming_id == streaming)) (get_question j m))
      × (removed + Questions.size m' ≡ Questions.size m)
unfolding remove_questions_by_streaming_id get_question Questions.size
remove_questions-get streaming j m v =
    rw (delete_all-matching (λ r. r.streaming_id == streaming) m v.distinct) (
      record {
        indexed = filter-IsIndexed (λ q. q.id) _ m v.indexed;
        distinct = filter-IsDistinct _ m v.distinct;
      },
      get-filter _ j m v.distinct,
      length-matching (λ r. r.streaming_id == streaming) m,
    )

-- To remove a stream's questions twice is to remove them once.
pub remove_questions_again :
    (streaming : String) (m : Tracker)
    → IsTracked m
    → let m' = (remove_questions_by_streaming_id streaming m).0 in
      (remove_questions_by_streaming_id streaming m').0 ≡ m'
unfolding remove_questions_by_streaming_id delete_all
remove_questions_again streaming m v = rw (
  delete_all-matching (λ r. r.streaming_id == streaming) m v.distinct,
  matching-filter (λ r. r.streaming_id == streaming) m,
)
