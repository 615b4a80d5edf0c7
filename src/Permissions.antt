-- ===== src/Permissions.antt =====
-- web/cui/src/services/permission-tracker.ts: the permission requests of the running tools.
-- The map holds the request objects, so an update of a request's fields is a write at its key.
pub mod Routes
pub mod Decisions
pub mod Cleanup
use private_agent_platform.Base.{
  ℕ, String, Bool, true, false, not, ◌&&◌, List, [], ◌∷◌, Option, none, some, ◌==◌, if◌then◌else◌,
  is_truthy, filter, length, leb,
}
use private_agent_platform.JsMap
use private_agent_platform.JsMap.{JsMap}
use private_agent_platform.JsMap.Index.{matching, delete_all}
use private_agent_platform.Status.{Status, get_session_id, or_default}
use private_agent_platform.Types.{Json, null, bool, num, str, arr, obj}

pub data PermissionStatus : Type 0 where
  pending approved denied : PermissionStatus

pub record PermissionRequest : Type 0 where
  pub id : String
  pub streaming_id : String
  pub tool_name : String
  pub tool_input : Json
  pub timestamp : String
  pub status : PermissionStatus
  pub modified_input : Option Json
  pub deny_reason : Option String

-- The answers that a request can be given.
pub data Decision : Type 0 where
  approve deny : Decision

abbrev pub decided : Decision → PermissionStatus
decided approve = approved
decided deny = denied

abbrev pub status_eq : PermissionStatus → PermissionStatus → Bool
status_eq pending pending = true
status_eq approved approved = true
status_eq denied denied = true
status_eq _ _ = false

-- Whether a JSON value is truthy.
abbrev is_truthy_json : Json → Bool
is_truthy_json null = false
is_truthy_json (bool b) = b
is_truthy_json (num n) = leb 1 n
is_truthy_json (str s) = is_truthy s
is_truthy_json (arr xs) = true
is_truthy_json (obj fs) = true

-- The notification that a new request asks for: with the session's summary, or without a session.
pub data Notice : Type 0 where
  silent : Notice
  about_session : String → Notice
  without_session : Notice

pub data Event : Type 0 where
  permission_request : PermissionRequest → Event
  permission_updated : PermissionRequest → Event

abbrev pub Tracker : Type 0
Tracker = JsMap PermissionRequest

pub notice : Bool → Status → Option String → Notice
notice ready status streaming_id =
    if ready
    then elim (get_session_id (or_default streaming_id "") status) [
      | none ↦ without_session
      | some session_id ↦ if is_truthy session_id then about_session session_id else without_session
    ]
    else silent

abbrev pub new_request : String → String → String → Json → Option String → PermissionRequest
new_request id now tool_name tool_input streaming_id = record {
  id = id;
  streaming_id = or_default streaming_id "unknown";
  tool_name = tool_name;
  tool_input = tool_input;
  timestamp = now;
  status = pending;
  modified_input = none;
  deny_reason = none;
}

-- `id` is the fresh UUID, `ready` whether the three services are set.
pub add_permission_request :
    String
    → String
    → Bool
    → Status
    → String
    → Json
    → Option String
    → Tracker
    → Tracker × PermissionRequest × Event × Notice
unfolding notice
add_permission_request id now ready status tool_name tool_input streaming_id m =
    let request = new_request id now tool_name tool_input streaming_id in
    (JsMap.set id request m, request, permission_request request, notice ready status streaming_id)

unfoldable get_all_permission_requests : Tracker → List PermissionRequest
get_all_permission_requests m = JsMap.values m

-- A filter on an absent or empty field picks everything.
abbrev pub by_streaming_id : Option String → PermissionRequest → Bool
by_streaming_id none r = true
by_streaming_id (some s) r = if is_truthy s then r.streaming_id == s else true

abbrev pub by_status : Option PermissionStatus → PermissionRequest → Bool
by_status none r = true
by_status (some s) r = status_eq r.status s

unfoldable pub get_permission_requests :
    Option String → Option PermissionStatus → Tracker → List PermissionRequest
get_permission_requests streaming_id status m =
    filter (by_status status) (filter (by_streaming_id streaming_id) (JsMap.values m))

pub get_permission_request : String → Tracker → Option PermissionRequest
get_permission_request id m = JsMap.get id m

-- The assignments to the fields of the request.
unfoldable pub decide :
    Decision → Option Json → Option String → PermissionRequest → PermissionRequest
decide approve none reason r = record r { status = approved }
decide approve (some input) reason r =
    if is_truthy_json input
    then record r { status = approved; modified_input = some input }
    else record r { status = approved }
decide deny input none r = record r { status = denied }
decide deny input (some reason) r =
    if is_truthy reason
    then record r { status = denied; deny_reason = some reason }
    else record r { status = denied }

unfoldable pub update_permission_status :
    String → Decision → Option Json → Option String → Tracker → Tracker × Bool × Option Event
unfolding decide
update_permission_status id decision modified_input deny_reason m = elim (JsMap.get id m) [
  | none ↦ (m, false, none)
  | some request ↦
      let request' = decide decision modified_input deny_reason request in
      (JsMap.set id request' m, true, some (permission_updated request'))
]

unfoldable pub clear : Tracker → Tracker
clear m = []

unfoldable pub size : Tracker → ℕ
size m = JsMap.size m

pub remove_permissions_by_streaming_id : String → Tracker → Tracker × ℕ
unfolding matching delete_all
remove_permissions_by_streaming_id streaming_id m =
    let to_remove = matching (λ r. r.streaming_id == streaming_id) m in
    (delete_all to_remove m, length to_remove)
