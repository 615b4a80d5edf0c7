-- ===== src/Client.antt =====
-- web/cui/src/web/chat/hooks/useConversationMessages.ts: what the web client shows of a conversation,
-- as it folds the events of the stream. Random ids and time stamps are left out, and so are the
-- caller's callbacks. A setter of React's state is applied at once.
pub mod Events
pub mod Tools
pub mod Loading
pub mod Connections
use private_agent_platform.Base.{
  String, Bool, true, false, not, ◌&&◌, List, [], ◌∷◌, ◌++◌, Option, none, some, ◌==◌,
  if◌then◌else◌, is_truthy, any, filter, find?, reverse,
}
use private_agent_platform.JsMap
use private_agent_platform.JsMap.{JsMap}
use private_agent_platform.Types.{Json, str, arr}
use private_agent_platform.Permissions.{PermissionRequest}
use private_agent_platform.Questions.{QuestionRequest}

-- The content blocks that the hook looks at: a tool use with its id, and a tool result with the id of
-- its use, its content and whether it is an error.
pub data Block : Type 0 where
  tool_use : String → Block
  tool_result : String → Option Json → Option Bool → Block
  other_block : Json → Block

pub data Content : Type 0 where
  text : String → Content
  blocks : List Block → Content

pub data ChatType : Type 0 where
  user assistant system error : ChatType

pub record ChatMessage : Type 0 where
  pub type : ChatType
  pub content : Content
  pub working_directory : Option String
  pub parent_tool_use_id : Option String

pub data ToolResult : Type 0 where
  pending : ToolResult
  completed : Json → Option Bool → ToolResult

pub record State : Type 0 where
  pub messages : List ChatMessage
  pub tool_results : JsMap ToolResult
  pub current_working_directory : Option String
  pub current_permission_request : Option PermissionRequest
  pub current_question_request : Option QuestionRequest
  pub children_messages : JsMap (List ChatMessage)
  pub expanded_tasks : List String

-- `clearMessages`, which is the first state too.
abbrev pub cleared : State
cleared = record {
  messages = [];
  tool_results = [];
  current_working_directory = none;
  current_permission_request = none;
  current_question_request = none;
  children_messages = [];
  expanded_tasks = [];
}

-- The tool uses of an assistant's blocks: those that are not known yet are pending.
unfoldable pub track_uses : List Block → JsMap ToolResult → JsMap ToolResult
track_uses [] m = m
track_uses (tool_use id ∷ bs) m =
    let m' = if is_truthy id && not (JsMap.has id m) then JsMap.set id pending m else m in
    track_uses bs m'
track_uses (tool_result id c e ∷ bs) m = track_uses bs m
track_uses (other_block j ∷ bs) m = track_uses bs m

-- The content of a result: a text or an array, and the empty text for anything else.
abbrev pub result_content : Option Json → Json
result_content (some (str s)) = str s
result_content (some (arr items)) = arr items
result_content _ = str ""

-- The tool results of a user's blocks.
unfoldable pub track_results : List Block → JsMap ToolResult → JsMap ToolResult
track_results [] m = m
track_results (tool_use id ∷ bs) m = track_results bs m
track_results (tool_result id c e ∷ bs) m =
    track_results bs (JsMap.set id (completed (result_content c) e) m)
track_results (other_block j ∷ bs) m = track_results bs m

abbrev pub is_result : Block → Bool
is_result (tool_result id c e) = true
is_result _ = false

abbrev pub blocks_of : Content → List Block
blocks_of (text s) = []
blocks_of (blocks bs) = bs

abbrev pub uses_of : ChatMessage → List Block
uses_of m = elim m.type [ assistant ↦ blocks_of m.content | _ ↦ [] ]

unfoldable pub add_message : ChatMessage → State → State
unfolding track_uses
add_message m s = record s {
  messages = s.messages ++ (m ∷ []);
  tool_results = track_uses (uses_of m) s.tool_results;
}

abbrev pub or_empty : Option (List ChatMessage) → List ChatMessage
or_empty none = []
or_empty (some ms) = ms

unfoldable pub add_child : String → ChatMessage → State → State
add_child parent m s = record s {
  children_messages =
      JsMap.set parent (or_empty (JsMap.get parent s.children_messages) ++ (m ∷ []))
        s.children_messages;
}

abbrev pub given : Option String → Option String
given none = none
given (some s) = if is_truthy s then some s else none

-- The events, by their types: the content and the parent of a message, the texts, and the requests.
pub data Event : Type 0 where
  connected : Event
  system_init : String → Event
  user_event : Content → Option String → Event
  assistant_event : Content → Option String → Event
  result : Event
  error_event : String → Event
  closed : Event
  permission_request : PermissionRequest → Event
  question_request : QuestionRequest → Event

unfoldable pub handle_user : Content → Option String → State → State
unfolding track_results add_child
handle_user content parent s =
    if any is_result (blocks_of content)
    then record s { tool_results = track_results (blocks_of content) s.tool_results }
    else elim (given parent) [
      | none ↦ s
      | some id ↦
          add_child id
            (record {
              type = user;
              content = content;
              working_directory = s.current_working_directory;
              parent_tool_use_id = some id;
            })
            s
    ]

-- The content as an array.
abbrev pub as_blocks : Content → Content
as_blocks (text s) = blocks (other_block (str s) ∷ [])
as_blocks (blocks bs) = blocks bs

unfoldable pub handle_assistant : Content → Option String → State → State
unfolding add_message add_child
handle_assistant content parent s =
    let m : ChatMessage = record {
      type = assistant;
      content = as_blocks content;
      working_directory = s.current_working_directory;
      parent_tool_use_id = parent;
    } in
    elim (given parent) [ none ↦ add_message m s | some id ↦ add_child id m s ]

unfoldable pub handle_stream_message : Event → State → State
unfolding handle_user handle_assistant add_message
handle_stream_message connected s = s
handle_stream_message (system_init cwd) s = record s { current_working_directory = some cwd }
handle_stream_message (user_event content parent) s = handle_user content parent s
handle_stream_message (assistant_event content parent) s = handle_assistant content parent s
handle_stream_message result s = s
handle_stream_message (error_event message) s =
    add_message
      (record {
        type = error;
        content = text message;
        working_directory = none;
        parent_tool_use_id = none;
      })
      s
handle_stream_message closed s = record s {
  current_permission_request = none;
  current_question_request = none;
}
handle_stream_message (permission_request r) s = record s { current_permission_request = some r }
handle_stream_message (question_request r) s = record s { current_question_request = some r }

unfoldable pub handle_all : List Event → State → State
unfolding handle_stream_message
handle_all [] s = s
handle_all (e ∷ es) s = handle_all es (handle_stream_message e s)

unfoldable toggle_task_expanded : String → State → State
toggle_task_expanded id s = record s {
  expanded_tasks =
      if any (λ x. x == id) s.expanded_tasks
      then filter (λ x. not (x == id)) s.expanded_tasks
      else s.expanded_tasks ++ (id ∷ []);
}

unfoldable clear_permission_request : State → State
clear_permission_request s = record s { current_permission_request = none }

unfoldable clear_question_request : State → State
clear_question_request s = record s { current_question_request = none }

unfoldable set_permission_request : PermissionRequest → State → State
set_permission_request r s = record s { current_permission_request = some r }
