-- ===== src/Metrics.antt =====
-- web/cui/src/services/ToolMetricsService.ts: line and call counts of the editing tools.
-- `diffLines` of the library jsdiff is the parameter `diff_lines`. An edit that is `null` has no
-- fields here; the source's reads of its fields would throw.
pub mod History
pub mod Lines
use private_agent_platform.Base.{
  ℕ, ◌+◌, ◌-◌, String, Bool, true, false, List, [], ◌∷◌, Option, none, some, ◌==◌, ◌||◌,
  if◌then◌else◌, length, codes, split, pop,
}
use private_agent_platform.JsMap
use private_agent_platform.JsMap.{JsMap}
use private_agent_platform.Types.{
  Json, Items, Fields, null, bool, num, str, arr, obj, nil, cons, lookup, get_field, Block,
  text_block, tool_use, other_block, Content, no_content, text, blocks, Body, missing, plain,
  object, ToolMetrics, MessageType, user, assistant, system,
}

-- A part of a difference, with the number of its lines.
pub record Change : Type 0 where
  pub added : Bool
  pub removed : Bool
  pub count : Option ℕ

abbrev zero_metrics : ToolMetrics
zero_metrics = record { lines_added = 0; lines_removed = 0; edit_count = 0; write_count = 0 }

abbrev pub or_zero : Option ToolMetrics → ToolMetrics
or_zero none = zero_metrics
or_zero (some m) = m

-- `count || 0`
abbrev count_of : Option ℕ → ℕ
count_of none = 0
count_of (some n) = n

-- The loop over the changes, from the two sums.
unfoldable sum_changes : List Change → ℕ × ℕ → ℕ × ℕ
sum_changes [] (a, r) = (a, r)
sum_changes (c ∷ cs) (a, r) = sum_changes cs (
    if c.added
    then (a + count_of c.count, r)
    else if c.removed
    then (a, r + count_of c.count)
    else (a, r))

abbrev as_string : Option Json → Option String
as_string (some (str s)) = some s
as_string _ = none

-- The count, less the empty line behind a trailing newline.
abbrev pub less_empty : List ℕ → ℕ → ℕ
less_empty [] n = n - 1
less_empty (c ∷ cs) n = n

unfoldable pub count_lines : String → ℕ
unfolding split pop
count_lines s =
    let lines = split 10 (codes s) in if s == "" then 0 else less_empty (pop lines).1 (length lines)

-- A message of a stream: an assistant's, with its session, or any other.
pub data StreamEvent : Type 0 where
  assistant_message : String → Body → StreamEvent
  other_event : StreamEvent

-- A message of the history, by its type.
abbrev pub HistoryMessage : Type 0
HistoryMessage = MessageType × Body

abbrev items_length : Items → ℕ
items_length nil = 0
items_length (cons e es) = items_length es + 1

pub write : Option Json → ToolMetrics → ToolMetrics
unfolding count_lines
write (some (str content)) m = record m {
  write_count = m.write_count + 1;
  lines_added = m.lines_added + count_lines content;
}
write _ m = record m { write_count = m.write_count + 1 }

-- The content blocks, where the content is an array.
abbrev pub content_blocks : Body → List Block
content_blocks (object o) = elim o.content [ no_content ↦ [] | text t ↦ [] | blocks bs ↦ bs ]
content_blocks _ = []

module _ (diff_lines : String → String → List Change) where
  unfoldable calculate_edit_line_diff : Option Json → Option Json → ToolMetrics → ToolMetrics
  unfolding sum_changes
  calculate_edit_line_diff old_string new_string m = elim (as_string old_string) [
    | none ↦ m
    | some old ↦ elim (as_string new_string) [
      | none ↦ m
      | some new ↦
          let (added, removed) = sum_changes (diff_lines old new) (0, 0) in
          record m {
            lines_added = m.lines_added + added;
            lines_removed = m.lines_removed + removed;
          }
    ]
  ]

  -- `edits.forEach(...)`
  unfoldable edit_each : Items → ToolMetrics → ToolMetrics
  edit_each nil m = m
  edit_each (cons e es) m =
      edit_each es
        (calculate_edit_line_diff (get_field "old_string" e) (get_field "new_string" e) m)

  unfoldable multi_edit : Option Json → ToolMetrics → ToolMetrics
  unfolding edit_each
  multi_edit (some (arr edits)) m =
      edit_each edits (record m { edit_count = m.edit_count + items_length edits })
  multi_edit _ m = m

  -- The counting of one tool use, in `processToolUse`.
  pub count_tool_use : String → Fields → ToolMetrics → ToolMetrics
  unfolding calculate_edit_line_diff multi_edit write
  count_tool_use name input m =
      if name == "Edit" || name == "MultiEdit"
      then if name == "Edit"
        then calculate_edit_line_diff (lookup "old_string" input) (lookup "new_string" input)
            (record m { edit_count = m.edit_count + 1 })
        else multi_edit (lookup "edits" input) m
      else if name == "Write"
      then write (lookup "content" input) m
      else m

  pub process_tool_use : String → String → Fields → JsMap ToolMetrics → JsMap ToolMetrics
  unfolding count_tool_use
  process_tool_use session_id name input metrics =
      JsMap.set session_id (count_tool_use name input (or_zero (JsMap.get session_id metrics)))
        metrics

  -- `content.forEach(block => ...)`
  pub process_blocks : String → List Block → JsMap ToolMetrics → JsMap ToolMetrics
  unfolding process_tool_use
  process_blocks session_id [] metrics = metrics
  process_blocks session_id (tool_use id name input ∷ bs) metrics =
      process_blocks session_id bs (process_tool_use session_id name input metrics)
  process_blocks session_id (b ∷ bs) metrics = process_blocks session_id bs metrics

  pub process_assistant_message : String → Body → JsMap ToolMetrics → JsMap ToolMetrics
  unfolding process_blocks
  process_assistant_message session_id message metrics =
      process_blocks session_id (content_blocks message) metrics

  pub handle_claude_message : StreamEvent → JsMap ToolMetrics → JsMap ToolMetrics
  unfolding process_assistant_message
  handle_claude_message (assistant_message session_id message) metrics =
      process_assistant_message session_id message metrics
  handle_claude_message other_event metrics = metrics

  -- The messages that the listener hears, in their order.
  pub listen : List StreamEvent → JsMap ToolMetrics → JsMap ToolMetrics
  unfolding handle_claude_message
  listen [] metrics = metrics
  listen (e ∷ es) metrics = listen es (handle_claude_message e metrics)

pub get_metrics : String → JsMap ToolMetrics → Option ToolMetrics
get_metrics session_id metrics = JsMap.get session_id metrics

module _ (diff_lines : String → String → List Change) where
  -- The counting of one tool use of the history.
  pub process_tool_use_for_metrics : String → Fields → ToolMetrics → ToolMetrics
  unfolding calculate_edit_line_diff multi_edit write
  process_tool_use_for_metrics name input m =
      if name == "Edit" || name == "MultiEdit"
      then if name == "Edit"
        then calculate_edit_line_diff diff_lines (lookup "old_string" input)
            (lookup "new_string" input) (record m { edit_count = m.edit_count + 1 })
        else multi_edit diff_lines (lookup "edits" input) m
      else if name == "Write"
      then write (lookup "content" input) m
      else m

  pub count_blocks : List Block → ToolMetrics → ToolMetrics
  unfolding process_tool_use_for_metrics
  count_blocks [] m = m
  count_blocks (tool_use id name input ∷ bs) m =
      count_blocks bs (process_tool_use_for_metrics name input m)
  count_blocks (b ∷ bs) m = count_blocks bs m

  pub count_messages : List HistoryMessage → ToolMetrics → ToolMetrics
  unfolding count_blocks
  count_messages [] m = m
  count_messages ((assistant, body) ∷ ms) m =
      count_messages ms (count_blocks (content_blocks body) m)
  count_messages ((user, body) ∷ ms) m = count_messages ms m
  count_messages ((system, body) ∷ ms) m = count_messages ms m

  unfoldable pub calculate_metrics_from_messages : List HistoryMessage → ToolMetrics
  unfolding count_messages
  calculate_metrics_from_messages ms = count_messages ms zero_metrics
