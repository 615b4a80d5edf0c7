-- ===== src/Permissions/Routes.antt =====
-- web/cui/src/routes/permission.routes.ts: the handlers over the tracker, each as a function of the
-- request's fields. An error keeps its code and HTTP status.
use private_agent_platform.Base.{
  String, Bool, List, Option, none, some, ◌==◌, if◌then◌else◌, is_truthy, find?, ℕ,
}
use private_agent_platform.Status.{Status}
use private_agent_platform.Types.{Json}
use private_agent_platform.Permissions.{
  PermissionStatus, PermissionRequest, pending, Decision, approve, deny, Tracker,
  add_permission_request, get_permission_requests, update_permission_status,
}

-- What the handler answers: a value, or an error with its code and status.
pub data Reply (A : Type 0) : Type 0 where
  json : A → Reply A
  fail : String → ℕ → Reply A

-- `POST /notify`
unfoldable pub notify :
    String
    → String
    → Bool
    → Status
    → Option String
    → Json
    → Option String
    → Tracker
    → Tracker × Reply String
notify id now ready status none tool_input streaming_id m = (m, fail "MISSING_TOOL_NAME" 400)
notify id now ready status (some tool_name) tool_input streaming_id m =
    if is_truthy tool_name
    then (let (m', request, event, sent) =
          add_permission_request id now ready status tool_name tool_input streaming_id m in
        (m', json request.id))
    else (m, fail "MISSING_TOOL_NAME" 400)

-- `GET /`
unfoldable pub list :
    Option String → Option PermissionStatus → Tracker → Reply (List PermissionRequest)
list streaming_id status m = json (get_permission_requests streaming_id status m)

-- The field `action`, if it is one of the two that are allowed.
unfoldable pub parse_action : Option String → Option Decision
parse_action none = none
parse_action (some a) =
    if a == "approve" then some approve else if a == "deny" then some deny else none

abbrev pub message : Decision → String
message approve = "Permission approved successfully"
message deny = "Permission denied successfully"

-- The part of the handler behind the validation of `action`.
unfoldable pub decide_request :
    String → Decision → Option Json → Option String → Tracker → Tracker × Reply String
decide_request request_id action modified_input deny_reason m =
    elim (find? (λ p. p.id == request_id) (get_permission_requests none (some pending) m)) [
      | none ↦ (m, fail "PERMISSION_NOT_FOUND" 404)
      | some permission ↦
          let input = elim action as (λ a. Option Json) [
            | approve ↦ modified_input
            | deny ↦ none
          ] in
          let reason = elim action as (λ a. Option String) [
            | approve ↦ none
            | deny ↦ deny_reason
          ] in
          let (m', updated, event) = update_permission_status request_id action input reason m in
          if updated then (m', json (message action)) else (m', fail "UPDATE_FAILED" 500)
    ]

-- `POST /:requestId/decision`
unfoldable pub decision :
    String → Option String → Option Json → Option String → Tracker → Tracker × Reply String
unfolding parse_action decide_request
decision request_id action modified_input deny_reason m = elim (parse_action action) [
  | none ↦ (m, fail "INVALID_ACTION" 400)
  | some a ↦ decide_request request_id a modified_input deny_reason m
]
