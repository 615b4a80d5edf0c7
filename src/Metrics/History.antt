-- ===== src/Metrics/History.antt =====
-- Lemmas on the live counts of ToolMetricsService.ts and those computed from the history.
use private_agent_platform.Base.{
  String, false, List, [], ◌∷◌, ◌==◌, ◌≡◌, refl, ◌∙◌, if◌then◌else◌, eq_iff, eq_refl, Bool-cases,
  inl, inr,
}
use private_agent_platform.JsMap
use private_agent_platform.JsMap.{JsMap}
use private_agent_platform.JsMap.Laws.{get-set}
use private_agent_platform.Types.{
  Fields, Block, text_block, tool_use, other_block, ToolMetrics, assistant,
}
use private_agent_platform.Metrics.{
  Change, or_zero, StreamEvent, assistant_message, other_event, HistoryMessage, content_blocks,
  count_tool_use, process_tool_use, process_blocks, process_assistant_message,
  handle_claude_message, listen, get_metrics, process_tool_use_for_metrics, count_blocks,
  count_messages, calculate_metrics_from_messages,
}

-- The messages of one session, as its history holds them.
abbrev pub session_history : String → List StreamEvent → List HistoryMessage
session_history s [] = []
session_history s (assistant_message session_id body ∷ es) =
    if session_id == s then (assistant, body) ∷ session_history s es else session_history s es
session_history s (other_event ∷ es) = session_history s es

module _ (diff : String → String → List Change) where
  live_tool_use :
      (name : String) (input : Fields) (m : ToolMetrics)
      → count_tool_use diff name input m ≡ process_tool_use_for_metrics diff name input m
  unfolding count_tool_use process_tool_use_for_metrics
  live_tool_use name input m = refl

  blocks_self :
      (s : String) (bs : List Block) (ms : JsMap ToolMetrics)
      → or_zero (JsMap.get s (process_blocks diff s bs ms))
        ≡ count_blocks diff bs (or_zero (JsMap.get s ms))
  unfolding process_blocks count_blocks process_tool_use
  blocks_self s [] ms = refl
  blocks_self s (tool_use id name input ∷ bs) ms = rw (
    blocks_self s bs (process_tool_use diff s name input ms),
    get-set s s (count_tool_use diff name input (or_zero (JsMap.get s ms))) ms,
    eq_refl s,
    live_tool_use name input,
  )
  blocks_self s (text_block t ∷ bs) ms = blocks_self s bs ms
  blocks_self s (other_block t ∷ bs) ms = blocks_self s bs ms

  blocks_other :
      (r s : String) (bs : List Block) (ms : JsMap ToolMetrics)
      → (r == s) ≡ false
      → JsMap.get s (process_blocks diff r bs ms) ≡ JsMap.get s ms
  unfolding process_blocks process_tool_use
  blocks_other r s [] ms ne = refl
  blocks_other r s (tool_use id name input ∷ bs) ms ne =
      rw (blocks_other r s bs (process_tool_use diff r name input ms) ne, get-set r s, ne)
  blocks_other r s (text_block t ∷ bs) ms ne = blocks_other r s bs ms ne
  blocks_other r s (other_block t ∷ bs) ms ne = blocks_other r s bs ms ne

  listen_from :
      (s : String) (es : List StreamEvent) (ms : JsMap ToolMetrics)
      → or_zero (JsMap.get s (listen diff es ms))
        ≡ count_messages diff (session_history s es) (or_zero (JsMap.get s ms))
  unfolding listen handle_claude_message process_assistant_message count_messages
  listen_from s [] ms = refl
  listen_from s (other_event ∷ es) ms = listen_from s es ms
  listen_from s (assistant_message r body ∷ es) ms =
      listen_from s es (process_blocks diff r (content_blocks body) ms)
      ∙ elim (Bool-cases (r == s)) [
        | inl e ↦
            let same = (eq_iff r s).0 e in rw (e, same, blocks_self s (content_blocks body) ms)
        | inr e ↦ rw (e, blocks_other r s (content_blocks body) ms e)
      ]

  -- The counts that the listener holds for a session, zero where it has none, are those that the
  -- history reader computes from the assistant messages of that session, whatever messages of
  -- other sessions come between them.
  pub live_metrics-history :
      (s : String) (es : List StreamEvent)
      → or_zero (get_metrics s (listen diff es []))
        ≡ calculate_metrics_from_messages diff (session_history s es)
  unfolding get_metrics calculate_metrics_from_messages JsMap.get
  live_metrics-history s es = listen_from s es []
