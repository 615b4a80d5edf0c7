-- ===== src/History/Conversation/Sessions.antt =====
-- Lemmas on the conversation that claude-history-reader.ts makes for one session.
use private_agent_platform.Base.{
  ℕ, String, true, false, List, [], ◌∷◌, Option, none, some, ◌==◌, ◌≡◌, refl, sym, ◌∙◌, ap, eq_iff,
  find?, filter, if◌then◌else◌, Bool-cases, inl, inr,
}
use private_agent_platform.JsMap
use private_agent_platform.JsMap.{JsMap}
use private_agent_platform.JsMap.Laws.{IsDistinct}
use private_agent_platform.Types.{ConversationMessage}
use private_agent_platform.Filter.{Outcome, returns, throws, filter_messages}
use private_agent_platform.History.Chain.{build_message_chain}
use private_agent_platform.History.Entries.{
  SourcedEntry, group_entries_by_session, process_summaries,
}
use private_agent_platform.History.Entries.Groups.{
  is_of, unless_empty, group_entries_by_session-get,
}
use private_agent_platform.History.Conversation.{
  ConversationChain, make_chain, chain_of_ordered, messages_of_entries, build_conversation_chain,
  build_each, process_all_entries,
}

-- The conversation, if there is one, is that of the session.
abbrev HasSession : String → Option ConversationChain → Type 0
HasSession s none = Unit
HasSession s (some c) = c.session_id ≡ s

build_conversation_chain-HasSession :
    (time : String → ℕ) (now s : String) (es : List SourcedEntry) (summaries : JsMap String)
    → HasSession s (build_conversation_chain time now s es summaries)
unfolding build_conversation_chain
build_conversation_chain-HasSession time now s es summaries =
    ordered (build_message_chain time (messages_of_entries es))
  where
    made :
        (m : ConversationMessage) (o : Outcome (List ConversationMessage))
        → HasSession s (make_chain now s es summaries m o)
    made m throws = unfold make_chain in tt
    made m (returns []) = unfold make_chain in tt
    made m (returns (x ∷ xs)) = unfold make_chain in refl

    ordered :
        (o : Option (List ConversationMessage))
        → HasSession s (chain_of_ordered now s es summaries o)
    ordered none = unfold chain_of_ordered in tt
    ordered (some []) = unfold chain_of_ordered in tt
    ordered (some (m ∷ ms)) = unfold chain_of_ordered in (made m (filter_messages (m ∷ ms)))

-- The conversation of a session out of its own entries.
abbrev pub conversation_of :
    (String → ℕ)
    → String
    → String
    → JsMap String
    → Option (List SourcedEntry)
    → Option ConversationChain
conversation_of time now s summaries none = none
conversation_of time now s summaries (some es) = build_conversation_chain time now s es summaries

module _ (time : String → ℕ) (now s : String) (summaries : JsMap String) where
  find?-build_each :
      (groups : JsMap (List SourcedEntry))
      → IsDistinct groups
      → find? (λ c. c.session_id == s) (build_each time now groups summaries)
        ≡ conversation_of time now s summaries (JsMap.get s groups)
  unfolding build_each JsMap.get
  find?-build_each [] d = refl
  find?-build_each ((k, es) ∷ groups) d =
      go (find?-build_each groups d.1) (build_conversation_chain time now k es summaries) refl
    where
      go :
          find? (λ c. c.session_id == s) (build_each time now groups summaries)
            ≡ conversation_of time now s summaries (JsMap.get s groups)
          → (made : Option ConversationChain)
          → build_conversation_chain time now k es summaries ≡ made
          → find?
              (λ c. c.session_id == s)
              (elim made as (λ x. List ConversationChain) [
                | none ↦ build_each time now groups summaries
                | some chain ↦ chain ∷ build_each time now groups summaries
              ])
            ≡ conversation_of time now s summaries (if k == s then some es else JsMap.get s groups)
      go rest none e = elim (Bool-cases (k == s)) [
        | inl same ↦
            let here = (eq_iff k s).0 same in
            let none_later : JsMap.get s groups ≡ none = rw here at d.0 in
            let unmade : build_conversation_chain time now s es summaries ≡ none = rw here at e in
            rw same (rest ∙ ap (conversation_of time now s summaries) none_later ∙ sym unmade)
        | inr other ↦ rw other rest
      ]
      go rest (some c) e =
          let named : c.session_id ≡ k =
            rw e at (build_conversation_chain-HasSession time now k es summaries) in
          elim (Bool-cases (k == s)) [
            | inl same ↦
                let here = (eq_iff k s).0 same in
                let made : build_conversation_chain time now s es summaries ≡ some c =
                  rw here at e in
                let found : (c.session_id == s) ≡ true = ap (λ x. x == s) named ∙ same in
                rw (found, same) (sym made)
            | inr other ↦
                let passed : (c.session_id == s) ≡ false = ap (λ x. x == s) named ∙ other in
                rw (passed, other) rest
          ]

-- The conversation that is found for a session is the one that is built from exactly the user and
-- assistant entries that name this session, in the order in which the files hold them; none is found
-- where there are no such entries.
pub process_all_entries-session :
    (time : String → ℕ) (now s : String) (es : List SourcedEntry)
    → find? (λ c. c.session_id == s) (process_all_entries time now es)
      ≡ conversation_of time now s (process_summaries es) (unless_empty (filter (is_of s) es))
unfolding process_all_entries
process_all_entries-session time now s es =
    let (grouped, distinct) = group_entries_by_session-get s es in
    find?-build_each time now s (process_summaries es) (group_entries_by_session es) distinct
    ∙ ap (conversation_of time now s (process_summaries es)) grouped
