-- ===== src/Examples/Sessions.antt =====
-- Runs of Status.antt and of History/Chain.antt.
use mathlib.Core.List.{Perm}
use private_agent_platform.Base.{
  ℕ, String, List, [], ◌∷◌, Option, none, some, ◌≡◌, refl, if◌then◌else◌, ◌==◌, All,
}
use private_agent_platform.JsMap
use private_agent_platform.Types.{ConversationMessage, MessageType, missing}
use private_agent_platform.Status.{
  Status, ContextInput, new, register_active_session, unregister_active_session, get_streaming_id,
  get_session_id,
}
use private_agent_platform.Status.Bijection.{IsMatched, without}
use private_agent_platform.Status.Mappings.{register_active_session-lookup}
use private_agent_platform.Status.Sessions.{
  step, Call, register, unregister, IsNamed, run, run-new-IsMatched,
}
use private_agent_platform.History.Chain.{build_message_chain}
use private_agent_platform.History.Chain.Complete.{build_message_chain-perm}

abbrev prompt : ContextInput
prompt = record {
  initial_prompt = "hello";
  working_directory = "/work";
  model = none;
  inherited_messages = none;
}

-- The session s1 moves from the stream t1 to t2, and t2 ends; s2 stays on t3.
abbrev calls : List Call
calls =
    register "now" "t1" "s1" (some prompt)
    ∷ register "now" "t2" "s1" none
    ∷ register "now" "t3" "s2" (some prompt)
    ∷ unregister "t2"
    ∷ []

named : All IsNamed calls
named = ((refl, refl), ((refl, refl), ((refl, refl), (tt, tt))))

abbrev state : Status
state = run calls new

valid : IsMatched state
valid = run-new-IsMatched calls named

session_moved : get_streaming_id "s2" state ≡ some "t3"
unfolding run step register_active_session unregister_active_session new get_streaming_id JsMap.get
    JsMap.set JsMap.delete
session_moved = refl

register_active_session-lookup_example :
    let s' = (register_active_session "now" "t4" "s2" none state).0 in
    (get_streaming_id "s2" s'
      ≡ (if "s2" == "s2" then some "t4" else without "t4" (get_streaming_id "s2" state)))
    × (get_session_id "t3" s'
        ≡ (if "t4" == "t3" then some "s2" else without "s2" (get_session_id "t3" state)))
register_active_session-lookup_example =
    register_active_session-lookup "now" "t4" "s2" none state valid "s2" "t3"

abbrev message : String → Option String → ConversationMessage
message uuid parent = record {
  uuid = uuid;
  type = MessageType.user;
  message = missing;
  timestamp = "";
  session_id = "s1";
  parent_uuid = parent;
  is_sidechain = none;
  user_type = none;
  cwd = none;
  version = none;
  duration_ms = none;
}

-- A head with a reply, and two messages that reply to one another.
abbrev replies : List ConversationMessage
replies =
    message "c" (some "d") ∷ message "a" none ∷ message "b" (some "a") ∷ message "d" (some "c") ∷ []

abbrev never : String → ℕ
never s = 0

build_message_chain-perm_example :
    (chain : List ConversationMessage) × (build_message_chain never replies ≡ some chain)
    × Perm chain replies
build_message_chain-perm_example =
    build_message_chain-perm never replies
      ((refl, (refl, (refl, tt))), ((refl, (refl, tt)), ((refl, tt), (tt, tt))))
