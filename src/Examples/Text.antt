-- ===== src/Examples/Text.antt =====
-- Runs of JsonLines.antt, LogBuffer.antt, Filter.antt and Metrics.antt.
use private_agent_platform.Base.{
  ℕ, String, Bool, true, false, List, [], ◌∷◌, map, Option, none, some, ◌≡◌, ◌↔◌, refl, filter, all,
  if◌then◌else◌, codes, pop, split, trim, prepend, eqb, starts_with,
}
use private_agent_platform.Types.{
  Body, Block, ConversationMessage, MessageType, ToolMetrics, missing, plain, object, blocks,
  text_block, tool_use, field, end, str, lookup,
}
use private_agent_platform.JsonLines.{
  newline, parse_line, parse_lines, push, go_on, transform, run, reset, pushed, ended,
}
use private_agent_platform.JsonLines.Chunks.{concat, run-lines}
use private_agent_platform.JsonLines.RoundTrip.{IsPrinter, run-write_lines}
use private_agent_platform.LogBuffer.{LogBuffer, add_logs, get_recent_logs, clear, pos}
use private_agent_platform.LogBuffer.Recent.{add_logs-recent}
use private_agent_platform.Filter.{filter_messages, returns, throws}
use private_agent_platform.Filter.Kept.{is_readable, is_shown}
use private_agent_platform.Filter.Commands.{IsHidden, filter_messages-IsHidden}
use private_agent_platform.Metrics.{
  Change, StreamEvent, assistant_message, or_zero, get_metrics, listen,
  calculate_metrics_from_messages, count_lines,
}
use private_agent_platform.Metrics.History.{session_history, live_metrics-history}

-- The texts 1 and 0 stand for the two booleans, and the text 2 for null.
abbrev parse : List ℕ → Option (Option Bool)
parse [] = none
parse (c ∷ s) =
    if eqb c 49
    then some (some true)
    else if eqb c 48
    then some (some false)
    else if eqb c 50
    then some none
    else none

abbrev print : Option Bool → List ℕ
print (some true) = codes "1"
print (some false) = codes "0"
print none = codes "2"

abbrev is_null : Option Bool → Bool
is_null none = true
is_null (some b) = false

-- A record, a bad line that is cut inside, a blank line, and a record without a newline.
abbrev chunks : List (List ℕ)
chunks = codes "1\nx" ∷ codes "y\n \n" ∷ codes "0" ∷ []

run-lines_example :
    run parse is_null chunks (reset (codes "old"))
    ≡ parse_lines parse is_null (split newline (concat chunks))
run-lines_example = run-lines parse is_null chunks (codes "old")

-- A null ends the stream before the record after it.
run_null :
    run parse is_null (codes "1\n2" ∷ codes "\n0\n" ∷ []) [] ≡ pushed (some true) ∷ ended ∷ []
unfolding run transform parse_lines parse_line push go_on split prepend trim pop
run_null = refl

printer : IsPrinter print parse
unfolding split prepend trim
printer = record {
  one_line = elim [ none ↦ refl | some true ↦ refl | some false ↦ refl ];
  not_blank = elim [ none ↦ refl | some true ↦ refl | some false ↦ refl ];
  reads_back = elim [ none ↦ refl | some true ↦ refl | some false ↦ refl ];
}

run-write_lines_example :
    run parse is_null (codes "1" ∷ codes "\n0\n" ∷ []) (reset [])
    ≡ map pushed (some true ∷ some false ∷ [])
run-write_lines_example =
    run-write_lines print parse is_null printer (some true ∷ some false ∷ [])
      (codes "1" ∷ codes "\n0\n" ∷ []) [] refl refl

abbrev log_buffer : LogBuffer String
log_buffer = record { buffer = "old" ∷ []; max_buffer_size = 2 }

add_logs-recent_example :
    let (b', events) = add_logs ("a" ∷ "b" ∷ "c" ∷ []) (clear log_buffer) in
    (b'.buffer ≡ "b" ∷ "c" ∷ [])
    × (events ≡ "a" ∷ "b" ∷ "c" ∷ [])
    × (get_recent_logs (some (pos 1)) b' ≡ "c" ∷ [])
    × (get_recent_logs none b' ≡ "b" ∷ "c" ∷ [])
add_logs-recent_example = add_logs-recent ("a" ∷ "b" ∷ "c" ∷ []) log_buffer 1

abbrev message : String → MessageType → Body → ConversationMessage
message uuid type body = record {
  uuid = uuid;
  type = type;
  message = body;
  timestamp = "";
  session_id = "s1";
  parent_uuid = none;
  is_sidechain = none;
  user_type = none;
  cwd = none;
  version = none;
  duration_ms = none;
}

abbrev shown_message : ConversationMessage
shown_message = message "b" MessageType.user (plain "hello")

-- A local command, a text of the user, and a reply without a body.
abbrev history : List ConversationMessage
history =
    message "a" MessageType.user (plain "  <command-name>/clear")
    ∷ shown_message
    ∷ message "c" MessageType.assistant missing
    ∷ []

filter_messages-IsHidden_example :
    (filter_messages history
      ≡ (if all is_readable history then returns (filter is_shown history) else throws))
    × ((m : ConversationMessage) → (is_shown m ≡ false) ↔ IsHidden m)
filter_messages-IsHidden_example = filter_messages-IsHidden history

abbrev shown : List ConversationMessage
shown = shown_message ∷ message "c" MessageType.assistant missing ∷ []

history-shown : filter_messages history ≡ returns shown
unfolding filter_messages starts_with trim
history-shown = refl

-- A difference that removes one line and adds two.
abbrev diff : String → String → List Change
diff old new =
    record { added = false; removed = true; count = some 1 }
    ∷ record { added = true; removed = false; count = some 2 }
    ∷ []

abbrev uses : List Block → Body
uses bs = object (record { role = "assistant"; content = blocks bs; model = none })

abbrev edit : Block
edit = tool_use "t1" "Edit" (field "old_string" (str "a") (field "new_string" (str "b") end))

abbrev write : Block
write = tool_use "t2" "Write" (field "content" (str "one\ntwo\n") end)

-- Two sessions whose messages alternate.
abbrev events : List StreamEvent
events =
    assistant_message "s1" (uses (edit ∷ []))
    ∷ assistant_message "s2" (uses (edit ∷ []))
    ∷ assistant_message "s1" (uses (text_block (some "done") ∷ write ∷ []))
    ∷ []

live_metrics-history_example :
    or_zero (get_metrics "s1" (listen diff events []))
    ≡ calculate_metrics_from_messages diff (session_history "s1" events)
live_metrics-history_example = live_metrics-history diff "s1" events

abbrev counted : ToolMetrics
counted = record { lines_added = 4; lines_removed = 1; edit_count = 1; write_count = 1 }

counted_s1 : calculate_metrics_from_messages diff (session_history "s1" events) ≡ counted
unfolding calculate_metrics_from_messages lookup
counted_s1 = refl

two_lines : count_lines "one\ntwo\n" ≡ 2
unfolding count_lines
two_lines = refl
