-- ===== src/Status/Views.antt =====
-- Lemmas on the conversation list entries and details that conversation-status-manager.ts makes for active
-- sessions which the history does not hold yet.
use Prim.Native.String.{◌++◌ as append}
use mathlib.Core.Option
use private_agent_platform.Base.{
  String, Bool, false, not, ◌&&◌, List, [], ◌∷◌, ◌++◌, map, Option, none, some, ◌==◌, ◌≡◌, refl,
  inl, inr, if◌then◌else◌, is_some, is_truthy, arith, filter, any, All, Option-cases,
}
use private_agent_platform.JsMap
use private_agent_platform.JsMap.{JsMap}
use private_agent_platform.JsMap.Laws.{keys-present}
use private_agent_platform.Types.{
  ConversationMessage, ConversationStatus, ConversationSummary, ConversationDetails, MessageType,
  Content, object,
}
use private_agent_platform.Status.{
  Status, Context, get_conversation_context, is_session_active, get_streaming_id,
  get_active_session_ids, or_default,
}
use private_agent_platform.Status.Bijection.{IsMatched}

-- The summary of one active session.
unfoldable active_summary : String → Context → String → ConversationSummary
active_summary session_id context streaming_id = record {
  session_id = session_id;
  project_path = context.working_directory;
  summary = "";
  session_info = record {
    custom_name = "";
    created_at = context.timestamp;
    updated_at = context.timestamp;
    version = 4;
    pinned = false;
    archived = false;
    continuation_session_id = "";
    initial_commit_head = "";
    permission_mode = "default";
    session_type = "user";
  };
  created_at = context.timestamp;
  updated_at = context.timestamp;
  message_count = 1;
  total_duration = 0;
  model = or_default (some context.model) "unknown";
  status = ConversationStatus.ongoing;
  streaming_id = some streaming_id;
  tool_metrics = none;
}

-- The callback of `map`: null where a session has no context or no stream.
unfoldable summarise : Status → String → Option ConversationSummary
unfolding active_summary get_conversation_context get_streaming_id
summarise s session_id = elim (get_conversation_context session_id s) [
  | none ↦ none
  | some context ↦ elim (get_streaming_id session_id s) [
    | none ↦ none
    | some streaming_id ↦
        if is_truthy streaming_id
        then some (active_summary session_id context streaming_id)
        else none
  ]
]

-- `.map(...).filter(c => c !== null)`
pub present : List (Option ConversationSummary) → List ConversationSummary
present [] = []
present (none ∷ xs) = present xs
present (some x ∷ xs) = x ∷ present xs

get_conversations_not_in_history : List String → Status → List ConversationSummary
unfolding summarise present get_active_session_ids
get_conversations_not_in_history existing s = present (
    map (summarise s)
      (filter (λ session_id. not (any (λ e. e == session_id) existing)) (get_active_session_ids s)))

-- The synthetic user message that stands for the initial prompt.
active_message : String → Context → ConversationMessage
active_message session_id context = record {
  uuid = append "active-" (append session_id "-user");
  type = MessageType.user;
  message =
      object
        (record { role = "user"; content = Content.text context.initial_prompt; model = none });
  timestamp = context.timestamp;
  session_id = session_id;
  parent_uuid = none;
  is_sidechain = none;
  user_type = none;
  cwd = some context.working_directory;
  version = none;
  duration_ms = none;
}

active_details : String → Context → ConversationDetails
unfolding active_message
active_details session_id context = record {
  messages =
      Option.get_or context.inherited_messages [] ++ (active_message session_id context ∷ []);
  summary = "";
  project_path = context.working_directory;
  total_duration = 0;
  model = or_default (some context.model) "unknown";
}

get_active_conversation_details : String → Status → Option ConversationDetails
unfolding is_session_active get_conversation_context active_details
get_active_conversation_details session_id s = elim (get_conversation_context session_id s) [
  | none ↦ none
  | some context ↦
      if is_session_active session_id s then some (active_details session_id context) else none
]

-- Which active sessions are listed: those that the history lacks and that have a context.
abbrev is_listed : List String → Status → String → Bool
is_listed existing s c = not (any (λ e. e == c) existing) && is_some (get_conversation_context c s)

-- The entry of a session that has a stream.
summarise-some :
    (s : Status) (c t : String)
    → IsMatched s
    → get_streaming_id c s ≡ some t
    → summarise s c
      ≡ Option.map (λ context. active_summary c context t) (get_conversation_context c s)
unfolding summarise get_streaming_id
summarise-some s c t v e = ground (arith, v.named c t e)

summarise_listed :
    (s : Status) (c t : String)
    → IsMatched s
    → get_streaming_id c s ≡ some t
    → Option.map (λ r. r.session_id) (summarise s c)
      ≡ (if is_some (get_conversation_context c s) then some c else none)
unfolding summarise
summarise_listed s c t v e = ground (arith, v.named c t e)

listed_from :
    (existing : List String) (s : Status) (m : JsMap String)
    → IsMatched s
    → All (λ c. (t : String) × (get_streaming_id c s ≡ some t)) (JsMap.keys m)
    → map
        (λ r. r.session_id)
        (present
          (map (summarise s) (filter (λ c. not (any (λ e. e == c) existing)) (JsMap.keys m))))
      ≡ filter (is_listed existing s) (JsMap.keys m)
unfolding present
listed_from existing s [] v a = refl
listed_from existing s ((c, w) ∷ m) v a =
    ground (arith, summarise_listed s c a.0.0 v a.0.1, listed_from existing s m v a.1)

-- The entries for active sessions are made for exactly those sessions, in their order of
-- registration, that the history lacks and that have a context.
not_in_history_sessions :
    (existing : List String) (s : Status)
    → IsMatched s
    → map (λ r. r.session_id) (get_conversations_not_in_history existing s)
      ≡ filter (is_listed existing s) (get_active_session_ids s)
unfolding get_conversations_not_in_history get_streaming_id
not_in_history_sessions existing s v =
    listed_from existing s s.session_to_streaming v (keys-present s.session_to_streaming)

-- In a matched state there are details exactly for the sessions that have a context, with the
-- inherited messages first and one user message, the initial prompt, last.
active_details-context :
    (session_id : String) (s : Status)
    → IsMatched s
    → (get_active_conversation_details session_id s
        ≡ Option.map (active_details session_id) (get_conversation_context session_id s))
      × (Option.map (λ d. d.messages) (get_active_conversation_details session_id s)
          ≡ Option.map
              (λ c. Option.get_or c.inherited_messages [] ++ (active_message session_id c ∷ []))
              (get_conversation_context session_id s))
unfolding get_active_conversation_details
active_details-context session_id s v =
    elim (Option-cases (JsMap.get session_id s.session_to_streaming)) [
      | inl e ↦
          (ground (arith, v.only_active session_id e), ground (arith, v.only_active session_id e))
      | inr (t, e) ↦ (ground arith, ground arith)
    ]
