-- ===== src/History/Fetch/Answers.antt =====
-- Lemmas on the answers of claude-history-reader.ts to a request for one conversation.
use private_agent_platform.Base.{ℕ, String, List, [], ◌∷◌, Option, none, some, ◌≡◌, refl, filter}
use private_agent_platform.JsMap.{JsMap}
use private_agent_platform.Types.{ConversationMessage}
use private_agent_platform.Filter.{Outcome, returns, throws, filter_messages}
use private_agent_platform.Filter.Kept.{filter_messages_idem}
use private_agent_platform.History.Chain.{build_message_chain}
use private_agent_platform.History.Entries.{SourcedEntry, process_summaries}
use private_agent_platform.History.Entries.Groups.{is_of, unless_empty}
use private_agent_platform.History.Conversation.{
  ConversationChain, make_chain, chain_of_ordered, messages_of_entries, build_conversation_chain,
  process_all_entries,
}
use private_agent_platform.History.Conversation.Sessions.{
  conversation_of, process_all_entries-session,
}
use private_agent_platform.History.Fetch.{Fetched, messages, failed, fetch_conversation}

-- The messages of the conversation, if there is one, are filtered already.
abbrev IsFiltered : Option ConversationChain → Type 0
IsFiltered none = Unit
IsFiltered (some c) = filter_messages c.messages ≡ returns c.messages

module _ (time : String → ℕ) (now s : String) (summaries : JsMap String) where
  make_chain-IsFiltered :
      (es : List SourcedEntry) (m : ConversationMessage) (ms : List ConversationMessage)
      (o : Outcome (List ConversationMessage))
      → filter_messages ms ≡ o
      → IsFiltered (make_chain now s es summaries m o)
  unfolding make_chain
  make_chain-IsFiltered es m ms throws e = tt
  make_chain-IsFiltered es m ms (returns []) e = tt
  make_chain-IsFiltered es m ms (returns (x ∷ xs)) e = filter_messages_idem ms (x ∷ xs) e

  chain_of_ordered-IsFiltered :
      (es : List SourcedEntry) (o : Option (List ConversationMessage))
      → IsFiltered (chain_of_ordered now s es summaries o)
  unfolding chain_of_ordered
  chain_of_ordered-IsFiltered es none = tt
  chain_of_ordered-IsFiltered es (some []) = tt
  chain_of_ordered-IsFiltered es (some (m ∷ ms)) =
      make_chain-IsFiltered es m (m ∷ ms) (filter_messages (m ∷ ms)) refl

  conversation_of-IsFiltered :
      (found : Option (List SourcedEntry)) → IsFiltered (conversation_of time now s summaries found)
  unfolding build_conversation_chain
  conversation_of-IsFiltered none = tt
  conversation_of-IsFiltered (some es) =
      chain_of_ordered-IsFiltered es (build_message_chain time (messages_of_entries es))

-- The answer for a conversation that was found.
abbrev answer_for : Option ConversationChain → Fetched
answer_for none = failed "CONVERSATION_NOT_FOUND" 404
answer_for (some c) = messages c.messages

-- The request for a session is answered with the messages of the conversation that is built from
-- exactly the session's own entries, without a further loss to the filter, or with 404 where there
-- is none. It is never answered with 500.
fetch_conversation-session :
    (time : String → ℕ) (now s : String) (es : List SourcedEntry)
    → fetch_conversation s (process_all_entries time now es)
      ≡ answer_for
          (conversation_of time now s (process_summaries es) (unless_empty (filter (is_of s) es)))
unfolding fetch_conversation
fetch_conversation-session time now s es =
    let made =
      conversation_of time now s (process_summaries es) (unless_empty (filter (is_of s) es)) in
    rw (process_all_entries-session time now s es, fetch_conversation)
      (go made (
        conversation_of-IsFiltered time now s (process_summaries es)
          (unless_empty (filter (is_of s) es))))
  where
    go :
        (made : Option ConversationChain)
        → IsFiltered made
        → (elim made as (λ x. Fetched) [
          | none ↦ failed "CONVERSATION_NOT_FOUND" 404
          | some c ↦ elim (filter_messages c.messages) as (λ x. Fetched) [
            | returns ms ↦ messages ms
            | throws ↦ failed "CONVERSATION_READ_FAILED" 500
          ]
        ])
          ≡ answer_for made
    go none f = refl
    go (some c) f = rw f
