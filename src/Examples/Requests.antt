-- ===== src/Examples/Requests.antt =====
-- Runs of Permissions.antt, Questions.antt and Auth.antt.
use private_agent_platform.Base.{
  ◌≤◌, String, List, [], ◌∷◌, ◌++◌, Option, none, some, ◌≡◌, refl, if◌then◌else◌, ◌==◌, codes,
  arith, strip_prefix, text_eq,
}
use private_agent_platform.JsMap
use private_agent_platform.JsMap.Index.{keep}
use private_agent_platform.Types.{null, obj, end}
use private_agent_platform.Permissions
use private_agent_platform.Permissions.{
  PermissionRequest, PermissionStatus, approve, decide, decided, new_request,
  add_permission_request, get_permission_request, update_permission_status, permission_request,
  remove_permissions_by_streaming_id,
}
use private_agent_platform.Permissions.Decisions
use private_agent_platform.Permissions.Decisions.{
  is_pending, decision-outcome, decision_once, update_permission_status-get,
}
use private_agent_platform.Permissions.Routes
use private_agent_platform.Permissions.Routes.{decision, parse_action}
use private_agent_platform.Questions
use private_agent_platform.Questions.{
  QuestionRequest, QuestionStatus, new_question, get_question, remove_questions_by_streaming_id,
}
use private_agent_platform.Questions.Answers
use private_agent_platform.Questions.Answers.{answer-outcome, answer_once, remove_questions-get}
use private_agent_platform.Questions.Routes as QuestionRoutes
use private_agent_platform.Questions.Routes.{answer, get_by_id, is_object}
use private_agent_platform.Auth.{bearer_token, Clock, authenticate, expected_token, max_attempts}
use private_agent_platform.Auth.Access.{authenticate-next}
use private_agent_platform.Auth.Limit.{count_failures, failures-le-max}

abbrev bash : PermissionRequest
bash = new_request "p1" "now" "Bash" (obj end) (some "t1")

abbrev two_requests : Permissions.Tracker
two_requests = ("p1", bash) ∷ ("p2", new_request "p2" "now" "Read" (obj end) (some "t2")) ∷ []

tracked : Decisions.IsTracked two_requests
unfolding JsMap.get
tracked = record { indexed = (refl, (refl, tt)); distinct = (refl, (refl, tt)) }

decision-outcome_example :
    decision "p1" (some "approve") none none two_requests
    ≡ Decisions.outcome "p1" none none two_requests
        (parse_action (some "approve"))
        (keep is_pending (JsMap.get "p1" two_requests))
decision-outcome_example = decision-outcome "p1" (some "approve") none none two_requests tracked

abbrev approved_requests : Permissions.Tracker
approved_requests =
    ("p1", record bash { status = PermissionStatus.approved })
    ∷ ("p2", new_request "p2" "now" "Read" (obj end) (some "t2"))
    ∷ []

decision_once_example :
    decision "p1" (some "deny") none (some "late") approved_requests
    ≡ (approved_requests, Routes.fail "PERMISSION_NOT_FOUND" 404)
unfolding decision parse_action Permissions.get_permission_requests update_permission_status decide
    JsMap.get JsMap.set
decision_once_example =
    decision_once "p1" (some "approve") (some "deny") none none none (some "late") two_requests
      approved_requests "Permission approved successfully" Permissions.deny tracked refl refl

abbrev question : QuestionRequest
question = new_question "q1" "now" null "t1"

abbrev asked : Questions.Tracker
asked = ("q1", question) ∷ []

asked-IsTracked : Answers.IsTracked asked
unfolding JsMap.get
asked-IsTracked = record { indexed = (refl, tt); distinct = (refl, tt) }

abbrev answered : Questions.Tracker
answered = ("q1", Answers.with_answers (obj end) question) ∷ []

answer_once_example :
    (r : QuestionRequest) × (get_by_id "q1" asked ≡ QuestionRoutes.json r)
    × (get_by_id "q1" answered ≡ (
        if "q1" == "q1"
        then QuestionRoutes.json (Answers.with_answers (obj end) r)
        else get_by_id "q1" asked))
    × (answer "q1" (obj end) answered ≡ (answered, QuestionRoutes.fail "QUESTION_NOT_PENDING" 400))
unfolding answer Questions.answer_question Questions.get_question JsMap.get JsMap.set
answer_once_example = answer_once "q1" "q1" (obj end) (obj end) asked answered refl refl

abbrev clock : Clock
clock = record { cleaned = 5; checked = 5; cleaned_again = 5; recorded = 5 }

authenticate-next_example :
    (h e : String) × (some "Bearer abc" ≡ some h)
    × (expected_token none (some "abc") ≡ some e)
    × (codes h ≡ codes "Bearer " ++ codes e)
unfolding authenticate bearer_token strip_prefix text_eq JsMap.get
authenticate-next_example =
    authenticate-next clock "127.0.0.1" (some "Bearer abc") none (some "abc") [] refl

abbrev bad_requests : List (Clock × String × Option String)
bad_requests = (clock, "10.0.0.1", none) ∷ (clock, "10.0.0.2", none) ∷ []

failures-le-max_example : count_failures none (some "abc") "10.0.0.1" bad_requests [] ≤ max_attempts
unfolding JsMap.get
failures-le-max_example =
    failures-le-max none (some "abc") 0 "10.0.0.1" bad_requests [] tt refl (omega arith)
