-- ===== src/Server.antt =====
-- web/cui/src/cui-server.ts: how the server joins the process manager, the status manager, the two
-- trackers and the stream manager, with the events of web/cui/src/services/claude-process-manager.ts.
-- A listener is called where its event is emitted, the server's before that of a pending start. The
-- tool metrics, which only listen to the messages, stand in Metrics.antt.
pub mod Events
pub mod Closing
pub mod Twice
pub mod Errors
pub mod Starts
pub mod Runs
pub mod Invariant
pub mod Reached
use Prim.Native.String.{◌++◌ as append}
use private_agent_platform.Base.{
  ℕ, String, Bool, true, false, List, [], ◌∷◌, ◌++◌, Option, none, some, ◌==◌, not, ◌&&◌,
  if◌then◌else◌, is_truthy, find?, eqb,
}
use private_agent_platform.JsMap
use private_agent_platform.JsMap.{JsMap}
use private_agent_platform.Types.{Json, str, Fields, lookup}
use private_agent_platform.Status
use private_agent_platform.Status.{
  Status, ContextInput, or_default, register_active_session, unregister_active_session,
}
use private_agent_platform.Permissions
use private_agent_platform.Permissions.{
  PermissionRequest, add_permission_request, remove_permissions_by_streaming_id,
}
use private_agent_platform.Questions
use private_agent_platform.Questions.{
  QuestionRequest, add_question, remove_questions_by_streaming_id,
}
use private_agent_platform.Streams
use private_agent_platform.Streams.{Streams, broadcast, close_session}
use private_agent_platform.Process
use private_agent_platform.Process.{
  Config, Manager, Timer, init_timeout, kill_timeout, launch, abandon, handle_process_close,
  clear_timeout, finish_stop,
}
use private_agent_platform.Process.Init.{
  Outcome, initialised, rejected, Waiter, waiting, settled, InitEvent, message, stderr, closed,
  timed_out, listen, is_init_message,
}

-- What the streams carry.
pub data StreamEvent : Type 0 where
  claude : Fields → StreamEvent
  error : String → String → String → StreamEvent
  permission_request : PermissionRequest → String → StreamEvent
  question_request : QuestionRequest → String → StreamEvent

-- `waits` holds the pending starts: the timer and the texts of stderr so far of each. `outcomes` are
-- the results of the waits that are over, in order.
pub record Server : Type 0 where
  pub manager : Manager
  pub status : Status
  pub permissions : Permissions.Tracker
  pub questions : Questions.Tracker
  pub streams : Streams StreamEvent
  pub waits : JsMap (ℕ × List String)
  pub outcomes : List (String × Outcome)

-- `sessions` and the maps are empty at the start; `dead` says which responses are closed.
unfoldable pub new : (ℕ → Bool) → Server
unfolding Process.new Status.new
new dead = record {
  manager = Process.new;
  status = Status.new;
  permissions = [];
  questions = [];
  streams = Streams.new dead;
  waits = [];
  outcomes = [];
}

-- The listeners of the process manager.
unfoldable pub forward_message : String → Fields → Server → Server
unfolding is_init_message
forward_message streaming m s =
    if is_init_message m then s else record s { streams = broadcast streaming (claude m) s.streams }

unfoldable pub process_closed : String → Server → Server
unfolding unregister_active_session
process_closed streaming s = record s {
  status = (unregister_active_session streaming s.status).0;
  permissions = (remove_permissions_by_streaming_id streaming s.permissions).0;
  questions = (remove_questions_by_streaming_id streaming s.questions).0;
  streams = close_session streaming s.streams;
}

unfoldable pub process_error : String → String → String → Server → Server
unfolding unregister_active_session
process_error now streaming text s = record s {
  status = (unregister_active_session streaming s.status).0;
  streams = broadcast streaming (error text streaming now) s.streams;
}

-- The listeners of the trackers.
abbrev is_known : String → Bool
is_known streaming = is_truthy streaming && not (streaming == "unknown")

unfoldable pub forward_permission : String → PermissionRequest → Server → Server
forward_permission now request s =
    if is_known request.streaming_id
    then record s {
      streams = broadcast request.streaming_id (permission_request request now) s.streams;
    }
    else s

unfoldable pub forward_question : String → QuestionRequest → Server → Server
forward_question now request s =
    if is_known request.streaming_id
    then record s {
      streams = broadcast request.streaming_id (question_request request now) s.streams;
    }
    else s

-- `addPermissionRequest` and `addQuestion`, with the listener of the event that they emit.
unfoldable pub request_permission :
    String → String → Bool → String → Json → Option String → Server → Server
unfolding forward_permission
request_permission id now ready tool input streaming s =
    let (m, request, event, notice) =
      add_permission_request id now ready s.status tool input streaming s.permissions in
    forward_permission now request (record s { permissions = m })

unfoldable pub ask_question : String → String → Json → String → Server → Server
unfolding forward_question
ask_question id now questions streaming s =
    let (m, request, event) = add_question id now questions streaming s.questions in
    forward_question now request (record s { questions = m })

-- The context that a session is registered with.
abbrev pub optimistic_context : String → Config → ContextInput
optimistic_context cwd c = record {
  initial_prompt = c.initial_prompt;
  working_directory = if is_truthy c.working_directory then c.working_directory else cwd;
  model = some (or_default c.model "default");
  inherited_messages = c.previous_messages;
}

-- The session id is a string, by the type of the message; another value is left out here.
abbrev as_string : Option Json → Option String
as_string (some (str s)) = some s
as_string _ = none

unfoldable pub session_id_of : Fields → Option String
unfolding lookup
session_id_of m = as_string (lookup "session_id" m)

unfoldable pub register_init : String → String → String → Fields → Server → Server
unfolding session_id_of register_active_session
register_init now cwd streaming m s = elim (session_id_of m) [
  | none ↦ s
  | some session_id ↦
      let context = elim (JsMap.get streaming s.manager.configs) as (λ c. Option ContextInput) [
        | none ↦ none
        | some config ↦ some (optimistic_context cwd config)
      ] in
      record s { status = (register_active_session now streaming session_id context s.status).0 }
]
