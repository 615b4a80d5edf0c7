-- ===== src/Status.antt =====
-- web/cui/src/services/conversation-status-manager.ts: which Claude session runs on which stream.
-- Log lines are left out; a method returns the new state, with the event that it emits.
pub mod Bijection
pub mod Mappings
pub mod Sessions
pub mod Views
use private_agent_platform.Base.{
  String, Bool, true, false, not, ◌&&◌, List, [], ◌∷◌, ◌++◌, map, Option, none, some, ◌==◌,
  if◌then◌else◌, is_some, is_truthy, filter, ℕ,
}
use private_agent_platform.JsMap
use private_agent_platform.JsMap.{JsMap}
use private_agent_platform.Types.{
  ConversationMessage, SessionInfo, ConversationStatus, ConversationSummary, ConversationDetails,
  MessageType, Content, object,
}
use Prim.Native.String.{◌++◌ as append}

pub record Context : Type 0 where
  pub initial_prompt : String
  pub working_directory : String
  pub model : String
  pub timestamp : String
  pub inherited_messages : Option (List ConversationMessage)

pub record ContextInput : Type 0 where
  pub initial_prompt : String
  pub working_directory : String
  pub model : Option String
  pub inherited_messages : Option (List ConversationMessage)

pub record Status : Type 0 where
  pub session_to_streaming : JsMap String
  pub streaming_to_session : JsMap String
  pub session_context : JsMap Context

pub data Event : Type 0 where
  session_started : String → String → Event
  session_ended : String → String → Event

unfoldable pub new : Status
new = record { session_to_streaming = []; streaming_to_session = []; session_context = [] }

-- `o || d` for a string that may be absent.
abbrev pub or_default : Option String → String → String
or_default none d = d
or_default (some s) d = if is_truthy s then s else d

pub drop_session_mapping : String → String → Status → Status
drop_session_mapping streaming claude s = elim (JsMap.get claude s.session_to_streaming) [
  | none ↦ s
  | some old ↦
      if is_truthy old && not (old == streaming)
      then record s { streaming_to_session = JsMap.delete old s.streaming_to_session }
      else s
]

pub drop_streaming_mapping : String → String → Status → Status
drop_streaming_mapping streaming claude s = elim (JsMap.get streaming s.streaming_to_session) [
  | none ↦ s
  | some old ↦
      if is_truthy old && not (old == claude)
      then record s {
        session_to_streaming = JsMap.delete old s.session_to_streaming;
        session_context = JsMap.delete old s.session_context;
      }
      else s
]

pub set_mapping : String → String → Status → Status
set_mapping streaming claude s = record s {
  session_to_streaming = JsMap.set claude streaming s.session_to_streaming;
  streaming_to_session = JsMap.set streaming claude s.streaming_to_session;
}

pub store_context : String → String → Option ContextInput → Status → Status
store_context now claude none s = s
store_context now claude (some c) s = record s {
  session_context =
      JsMap.set claude
        (record {
          initial_prompt = c.initial_prompt;
          working_directory = c.working_directory;
          model = or_default c.model "default";
          timestamp = now;
          inherited_messages = c.inherited_messages;
        })
        s.session_context;
}

-- `now` is the time stamp that the method takes from the clock.
unfoldable pub register_active_session :
    String → String → String → Option ContextInput → Status → Status × Event
unfolding drop_session_mapping drop_streaming_mapping set_mapping store_context
register_active_session now streaming claude context s =
    let s₁ = drop_session_mapping streaming claude s in
    let s₂ = drop_streaming_mapping streaming claude s₁ in
    let s₃ = set_mapping streaming claude s₂ in
    (store_context now claude context s₃, session_started streaming claude)

unfoldable pub unregister_active_session : String → Status → Status × Option Event
unregister_active_session streaming s = elim (JsMap.get streaming s.streaming_to_session) [
  | none ↦ (s, none)
  | some claude ↦
      if is_truthy claude
      then (
        record {
          session_to_streaming = JsMap.delete claude s.session_to_streaming;
          streaming_to_session = JsMap.delete streaming s.streaming_to_session;
          session_context = JsMap.delete claude s.session_context;
        },
        some (session_ended streaming claude),
      )
      else (s, none)
]

pub get_conversation_context : String → Status → Option Context
get_conversation_context claude s = JsMap.get claude s.session_context

pub is_session_active : String → Status → Bool
is_session_active claude s = JsMap.has claude s.session_to_streaming

unfoldable pub get_streaming_id : String → Status → Option String
get_streaming_id claude s = JsMap.get claude s.session_to_streaming

pub get_session_id : String → Status → Option String
get_session_id streaming s = JsMap.get streaming s.streaming_to_session

pub get_active_session_ids : Status → List String
get_active_session_ids s = JsMap.keys s.session_to_streaming

unfoldable get_active_streaming_ids : Status → List String
get_active_streaming_ids s = JsMap.keys s.streaming_to_session

unfoldable get_conversation_status : String → Status → ConversationStatus
unfolding is_session_active
get_conversation_status claude s =
    if is_session_active claude s then ConversationStatus.ongoing else ConversationStatus.completed

unfoldable pub clear : Status → Status
clear s = record { session_to_streaming = []; streaming_to_session = []; session_context = [] }

pub record Stats : Type 0 where
  pub active_sessions_count : ℕ
  pub active_streaming_ids_count : ℕ
  pub active_contexts_count : ℕ
  pub active_sessions : List (String × String)

unfoldable get_stats : Status → Stats
get_stats s = record {
  active_sessions_count = JsMap.size s.session_to_streaming;
  active_streaming_ids_count = JsMap.size s.streaming_to_session;
  active_contexts_count = JsMap.size s.session_context;
  active_sessions = s.session_to_streaming;
}
