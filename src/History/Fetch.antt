-- ===== src/History/Fetch.antt =====
-- `fetchConversation`, `getConversationMetadata` and `getConversationWorkingDirectory` of
-- claude-history-reader.ts, over the conversations that were parsed.
pub mod Answers
use private_agent_platform.Base.{ℕ, String, List, Option, none, some, ◌==◌, find?}
use private_agent_platform.Types.{ConversationMessage}
use private_agent_platform.Filter.{returns, throws, filter_messages}
use private_agent_platform.History.Conversation.{ConversationChain}

-- The answer, or an error with its code and HTTP status.
pub data Fetched : Type 0 where
  messages : List ConversationMessage → Fetched
  failed : String → ℕ → Fetched

abbrev conversation_with : String → List ConversationChain → Option ConversationChain
conversation_with session_id = find? (λ chain. chain.session_id == session_id)

unfoldable pub fetch_conversation : String → List ConversationChain → Fetched
fetch_conversation session_id chains = elim (conversation_with session_id chains) [
  | none ↦ failed "CONVERSATION_NOT_FOUND" 404
  | some conversation ↦ elim (filter_messages conversation.messages) [
    | returns ms ↦ messages ms
    | throws ↦ failed "CONVERSATION_READ_FAILED" 500
  ]
]

pub record Metadata : Type 0 where
  pub summary : String
  pub project_path : String
  pub model : String
  pub total_duration : ℕ

unfoldable get_conversation_metadata : String → List ConversationChain → Option Metadata
get_conversation_metadata session_id chains = elim (conversation_with session_id chains) [
  | none ↦ none
  | some conversation ↦ some (record {
    summary = conversation.summary;
    project_path = conversation.project_path;
    model = conversation.model;
    total_duration = conversation.total_duration;
  })
]

unfoldable get_conversation_working_directory : String → List ConversationChain → Option String
get_conversation_working_directory session_id chains = elim (conversation_with session_id chains) [
  | none ↦ none
  | some conversation ↦ some conversation.project_path
]
