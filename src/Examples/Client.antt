-- ===== src/Examples/Client.antt =====
-- Runs of the web client's conversation (Client.antt).
use private_agent_platform.Base.{
  ◌≤◌, arith, ℕ, suc, String, false, List, [], ◌∷◌, none, some, ◌≡◌, refl, any,
}
use private_agent_platform.JsMap
use private_agent_platform.Types.{str, obj, end}
use private_agent_platform.Permissions.{PermissionRequest, pending}
use private_agent_platform.Client.{
  tool_use, tool_result, blocks, user, assistant, ChatMessage, Event, user_event, assistant_event,
  permission_request, cleared, completed, handle_all,
}
use private_agent_platform.Client.Events.{handle_all-last}
use private_agent_platform.Client.Tools.{
  or_else, last_result, pending_if, uses, handle_all-tool_results,
}
use private_agent_platform.Client.Connections.{
  Connection, connecting, connected, Streams, get_active_connection_count, connect_to_stream,
  process_queue, disconnect_stream,
}
use private_agent_platform.Client.Connections.Full.{waiting, process_queue-hangs}
use private_agent_platform.Client.Connections.Limit.{connect_to_stream-limit}
use private_agent_platform.Client.Loading.{set_all_messages}

-- Two tools ask for permission at the same time.
abbrev asked : String → PermissionRequest
asked id = record {
  id = id;
  streaming_id = "s1";
  tool_name = "Bash";
  tool_input = obj end;
  timestamp = "t0";
  status = pending;
  modified_input = none;
  deny_reason = none;
}

abbrev both : List Event
both = permission_request (asked "p1") ∷ permission_request (asked "p2") ∷ []

handle_all-last_example : (handle_all both cleared).current_permission_request ≡ some (asked "p2")
handle_all-last_example = handle_all-last both cleared

abbrev used : List Event
used =
    assistant_event (blocks (tool_use "t1" ∷ tool_use "t2" ∷ [])) none
    ∷ user_event (blocks (tool_result "t1" (some (str "ok")) (some false) ∷ [])) none
    ∷ []

handle_all-tool_results_example :
    JsMap.get "t1" (handle_all used cleared).tool_results
    ≡ or_else (last_result "t1" used) (pending_if (any (uses "t1") used))
handle_all-tool_results_example = handle_all-tool_results used "t1" refl

abbrev loaded : List ChatMessage
loaded =
    record {
      type = assistant;
      content = blocks (tool_use "t1" ∷ []);
      working_directory = some "/a";
      parent_tool_use_id = none;
    }
    ∷ record {
      type = user;
      content = blocks (tool_result "t1" none none ∷ tool_result "t9" none none ∷ []);
      working_directory = some "/b";
      parent_tool_use_id = none;
    }
    ∷ []

loaded_results :
    (set_all_messages loaded cleared).tool_results ≡ ("t1", completed (str "") none) ∷ []
unfolding set_all_messages JsMap.set JsMap.get
loaded_results = refl

loaded_directory : (set_all_messages loaded cleared).current_working_directory ≡ some "/b"
unfolding set_all_messages
loaded_directory = refl

-- With one connection allowed and two streams that wait, the end of the first stream leaves the loop
-- over the queue running, whatever fuel it has.
abbrev crowded : Streams
crowded = record {
  connections =
      ("a", record { connection_state = connected; retry_count = 0; retry_timeout = none }) ∷ [];
  pending_queue = "b" ∷ "c" ∷ [];
}

crowded_hangs : (fuel : ℕ) → disconnect_stream (suc fuel) 1 "a" crowded ≡ none
unfolding disconnect_stream process_queue connect_to_stream JsMap.get JsMap.set
crowded_hangs fuel = process_queue-hangs fuel 1 0 "c" _ refl refl refl refl

abbrev open_connection : Connection
open_connection = record { connection_state = connecting; retry_count = 0; retry_timeout = none }

process_queue-hangs_example : process_queue 9 1 0 (waiting (("b", open_connection) ∷ []) "c") ≡ none
unfolding JsMap.get
process_queue-hangs_example =
    process_queue-hangs 9 1 0 "c" (("b", open_connection) ∷ []) refl refl refl refl

connect_to_stream-limit_example :
    get_active_connection_count (connect_to_stream 1 "b" crowded).connections ≤ 1
connect_to_stream-limit_example = connect_to_stream-limit 1 "b" crowded (omega arith)
