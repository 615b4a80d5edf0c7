-- ===== src/History/Conversation.antt =====
-- How claude-history-reader.ts makes conversations out of grouped entries: `buildConversationChain`
-- and what it calls, and `processAllEntries`. `now` is the time stamp that stands in for missing
-- ones. An error while a conversation is built gives none, and so does fuel that runs out. Lengths of
-- texts count characters.
pub mod Sessions
pub mod Shown
use Prim.Native.Char.{code}
use Prim.Native.Nat.{lt, eq, gt}
use Prim.Native.String
use Prim.Native.String.{compare}
use private_agent_platform.Base.{
  ℕ, zero, suc, ◌+◌, String, Bool, true, false, List, [], ◌∷◌, ◌++◌, map, Option, none, some, ◌==◌,
  if◌then◌else◌, ltb, eqb, filter, find?, length, codes, is_truthy,
}
use private_agent_platform.JsMap
use private_agent_platform.JsMap.{JsMap}
use private_agent_platform.Status.{or_default}
use private_agent_platform.Types.{
  Content, no_content, text, blocks, Body, missing, plain, object, ConversationMessage,
}
use private_agent_platform.Filter.{Outcome, returns, throws, first_text, is_user, filter_messages}
use private_agent_platform.History.Chain.{build_message_chain}
use private_agent_platform.History.Entries.{
  SourcedEntry, parse_message, group_entries_by_session, process_summaries,
}

pub record ConversationChain : Type 0 where
  pub session_id : String
  pub messages : List ConversationMessage
  pub project_path : String
  pub summary : String
  pub created_at : String
  pub updated_at : String
  pub total_duration : ℕ
  pub model : String

-- `substring(0, n)` and the concatenation of texts.
abbrev take_text : ℕ → String → String
take_text zero s = String.[]
take_text (suc n) String.[] = String.[]
take_text (suc n) (String.◌∷◌ c s) = String.◌∷◌ c (take_text n s)

abbrev append_text : String → String → String
append_text String.[] t = t
append_text (String.◌∷◌ c s) t = String.◌∷◌ c (append_text s t)

-- `encoded.replace(/-/g, '/')`
unfoldable decode_project_path : String → String
decode_project_path String.[] = String.[]
decode_project_path (String.◌∷◌ c s) =
    let rest = decode_project_path s in
    if eqb (code c) 45 then append_text "/" rest else String.◌∷◌ c rest

-- The content of a message object, in `extractMessageContent`.
unfoldable object_text : Content → String
object_text no_content = "No content available"
object_text (text t) = or_default (some t) "No content available"
object_text (blocks bs) = or_default (first_text bs) ""

abbrev shorten : String → String
shorten content =
    if ltb 100 (length (codes content)) then append_text (take_text 100 content) "..." else content

-- The summary of the last message that has one.
unfoldable latest_summary : List ConversationMessage → JsMap String → Option String
latest_summary [] summaries = none
latest_summary (m ∷ ms) summaries = elim (latest_summary ms summaries) [
  | none ↦ JsMap.get m.uuid summaries
  | some t ↦ some t
]

-- The fallback: the content of the first user message, if it has a body that is not blank.
unfoldable first_content : Option ConversationMessage → String
unfolding object_text
first_content none = "No summary available"
first_content (some m) = elim m.message [
  | missing ↦ "No summary available"
  | plain s ↦ if is_truthy s then shorten s else "No summary available"
  | object o ↦ shorten (object_text o.content)
]

unfoldable determine_conversation_summary : List ConversationMessage → JsMap String → String
unfolding latest_summary first_content
determine_conversation_summary ms summaries = elim (latest_summary ms summaries) [
  | some t ↦ t
  | none ↦ first_content (find? (λ m. is_user m.type) ms)
]

abbrev pub model_of : Body → String
model_of (object o) = or_default o.model ""
model_of _ = ""

unfoldable extract_model : List ConversationMessage → String
extract_model [] = "Unknown"
extract_model (m ∷ ms) =
    let rest = extract_model ms in
    if is_truthy (model_of m.message) then model_of m.message else rest

-- `timestamps.sort()`, by the order of texts.
unfoldable insert_text : String → List String → List String
insert_text t [] = t ∷ []
insert_text t (x ∷ xs) =
    let rest = insert_text t xs in
    elim (compare t x) [ lt ↦ t ∷ x ∷ xs | eq ↦ t ∷ x ∷ xs | gt ↦ x ∷ rest ]

unfoldable sort_texts : List String → List String
unfolding insert_text
sort_texts [] = []
sort_texts (t ∷ ts) = insert_text t (sort_texts ts)

unfoldable timestamps_of : List ConversationMessage → List String
unfolding sort_texts
timestamps_of ms = sort_texts (filter is_truthy (map (λ m. m.timestamp) ms))

abbrev first_or : String → List String → String
first_or d [] = d
first_or d (t ∷ ts) = t

abbrev last_or : String → List String → String
last_or d [] = d
last_or d (t ∷ ts) = last_or t ts

-- `sum + (msg.durationMs || 0)`
unfoldable durations : List ConversationMessage → ℕ
durations [] = 0
durations (m ∷ ms) = (elim m.duration_ms [ none ↦ 0 | some d ↦ d ]) + durations ms

abbrev source_of : List SourcedEntry → String
source_of [] = ""
source_of (e ∷ es) = e.1

abbrev project_path_of : ConversationMessage → List SourcedEntry → String
project_path_of first entries = or_default first.cwd (decode_project_path (source_of entries))

abbrev pub messages_of_entries : List SourcedEntry → List ConversationMessage
messages_of_entries = map (λ e. parse_message e.0)

-- The conversation out of the messages that the filter left.
unfoldable pub make_chain :
    String
    → String
    → List SourcedEntry
    → JsMap String
    → ConversationMessage
    → Outcome (List ConversationMessage)
    → Option ConversationChain
unfolding determine_conversation_summary extract_model timestamps_of durations decode_project_path
make_chain now session_id entries summaries first throws = none
make_chain now session_id entries summaries first (returns []) = none
make_chain now session_id entries summaries first (returns (m ∷ ms)) =
    let filtered = m ∷ ms in
    let timestamps = timestamps_of filtered in
    let created_at = first_or now timestamps in
    some (record {
      session_id = session_id;
      messages = filtered;
      project_path = project_path_of first entries;
      summary = determine_conversation_summary filtered summaries;
      created_at = created_at;
      updated_at = last_or created_at timestamps;
      total_duration = durations filtered;
      model = extract_model filtered;
    })

unfoldable pub chain_of_ordered :
    String
    → String
    → List SourcedEntry
    → JsMap String
    → Option (List ConversationMessage)
    → Option ConversationChain
unfolding make_chain filter_messages
chain_of_ordered now session_id entries summaries none = none
chain_of_ordered now session_id entries summaries (some []) = none
chain_of_ordered now session_id entries summaries (some (m ∷ ms)) =
    make_chain now session_id entries summaries m (filter_messages (m ∷ ms))

module _ (time : String → ℕ) (now : String) where
  unfoldable pub build_conversation_chain :
      String → List SourcedEntry → JsMap String → Option ConversationChain
  unfolding parse_message build_message_chain chain_of_ordered
  build_conversation_chain session_id entries summaries =
      chain_of_ordered now session_id entries summaries
        (build_message_chain time (messages_of_entries entries))

  -- The loop of `processAllEntries` over the groups.
  pub build_each : JsMap (List SourcedEntry) → JsMap String → List ConversationChain
  unfolding build_conversation_chain
  build_each [] summaries = []
  build_each ((session_id, entries) ∷ groups) summaries =
      let rest = build_each groups summaries in
      elim (build_conversation_chain session_id entries summaries) [
        | none ↦ rest
        | some chain ↦ chain ∷ rest
      ]

  pub process_all_entries : List SourcedEntry → List ConversationChain
  unfolding group_entries_by_session process_summaries build_each
  process_all_entries entries =
      build_each (group_entries_by_session entries) (process_summaries entries)
