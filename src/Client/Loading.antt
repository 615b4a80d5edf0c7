-- ===== src/Client/Loading.antt =====
-- `setAllMessages` of web/cui/src/web/chat/hooks/useConversationMessages.ts: the messages of a
-- conversation that is loaded at once.
use private_agent_platform.Base.{
  String, Bool, not, List, [], ◌∷◌, ◌++◌, Option, none, some, if◌then◌else◌, is_truthy, is_some,
  filter, find?, reverse,
}
use private_agent_platform.JsMap
use private_agent_platform.JsMap.{JsMap}
use private_agent_platform.Client.{
  Block, tool_use, tool_result, user, assistant, ChatMessage, ToolResult, pending, completed,
  result_content, State, blocks_of, given, or_empty,
}

-- The tool uses of an assistant's blocks: all are pending again.
unfoldable load_uses : List Block → JsMap ToolResult → JsMap ToolResult
load_uses [] m = m
load_uses (tool_use id ∷ bs) m = load_uses bs (if is_truthy id then JsMap.set id pending m else m)
load_uses (_ ∷ bs) m = load_uses bs m

-- The tool results of a user's blocks: only those of a tool that was used before.
unfoldable load_results : List Block → JsMap ToolResult → JsMap ToolResult
load_results [] m = m
load_results (tool_result id c e ∷ bs) m =
    load_results bs (if JsMap.has id m then JsMap.set id (completed (result_content c) e) m else m)
load_results (_ ∷ bs) m = load_results bs m

unfoldable load_message : ChatMessage → JsMap ToolResult → JsMap ToolResult
unfolding load_uses load_results
load_message m results = elim m.type [
  | assistant ↦ load_uses (blocks_of m.content) results
  | user ↦ load_results (blocks_of m.content) results
  | _ ↦ results
]

unfoldable load_messages : List ChatMessage → JsMap ToolResult → JsMap ToolResult
unfolding load_message
load_messages [] results = results
load_messages (m ∷ ms) results = load_messages ms (load_message m results)

-- The children, by the tool use that is their parent.
unfoldable group_children : List ChatMessage → JsMap (List ChatMessage) → JsMap (List ChatMessage)
group_children [] groups = groups
group_children (m ∷ ms) groups = elim (given m.parent_tool_use_id) [
  | none ↦ group_children ms groups
  | some id ↦ group_children ms (JsMap.set id (or_empty (JsMap.get id groups) ++ (m ∷ [])) groups)
]

abbrev is_parent : ChatMessage → Bool
is_parent m = not (is_some (given m.parent_tool_use_id))

-- The working directory of the last message that has one.
abbrev most_recent_directory : List ChatMessage → Option String → Option String
most_recent_directory ms current =
    elim (find? (λ m. is_some (given m.working_directory)) (reverse ms)) [
      | none ↦ current
      | some m ↦ m.working_directory
    ]

unfoldable pub set_all_messages : List ChatMessage → State → State
unfolding load_messages group_children
set_all_messages ms s = record s {
  messages = filter is_parent ms;
  children_messages = group_children ms [];
  tool_results = load_messages ms [];
  current_working_directory = most_recent_directory ms s.current_working_directory;
}
