-- ===== src/History/Chain.antt =====
-- `buildMessageChain` of claude-history-reader.ts: the messages of a session in the order of their
-- replies. `time` reads a time stamp, which is taken to be a valid date; `sort` of an array is
-- stable. The recursion over replies takes fuel; `none` means that it ran out.
pub mod Sorting
pub mod Complete
use private_agent_platform.Base.{
  ℕ, zero, suc, String, Bool, true, false, not, List, [], ◌∷◌, ◌++◌, Option, none, some, ◌==◌,
  if◌then◌else◌, leb, filter, find?, any, length, is_truthy,
}
use private_agent_platform.Types.{ConversationMessage}

abbrev pub contains : String → List String → Bool
contains s v = any (λ x. x == s) v

-- `!msg.parentUuid`
abbrev pub is_head : ConversationMessage → Bool
is_head m = elim m.parent_uuid [ none ↦ true | some p ↦ not (is_truthy p) ]

abbrev pub is_reply_to : String → ConversationMessage → Bool
is_reply_to uuid m = elim m.parent_uuid [ none ↦ false | some p ↦ p == uuid ]

-- The variables `visited` and `orderedMessages`.
pub record Walk : Type 0 where
  pub visited : List String
  pub ordered : List ConversationMessage

-- A loop over messages whose body may fail.
pub for_each :
    (ConversationMessage → Walk → Option Walk) → List ConversationMessage → Walk → Option Walk
for_each body [] w = some w
for_each body (m ∷ ms) w = elim (body m w) [ none ↦ none | some w' ↦ for_each body ms w' ]

module _ (time : String → ℕ) where
  pub insert : ConversationMessage → List ConversationMessage → List ConversationMessage
  insert m [] = m ∷ []
  insert m (x ∷ xs) =
      if leb (time m.timestamp) (time x.timestamp) then m ∷ x ∷ xs else x ∷ insert m xs

  -- `sort((a, b) => time(a) - time(b))`, by insertion from the right.
  pub sort : List ConversationMessage → List ConversationMessage
  unfolding insert
  sort [] = []
  sort (m ∷ ms) = insert m (sort ms)

  pub traverse : List ConversationMessage → ℕ → ConversationMessage → Walk → Option Walk
  unfolding for_each sort
  traverse messages zero m w = none
  traverse messages (suc fuel) m w = elim (contains m.uuid w.visited) [
    | true ↦ some w
    | false ↦
        for_each (traverse messages fuel) (sort (filter (is_reply_to m.uuid) messages))
          (record { visited = m.uuid ∷ w.visited; ordered = w.ordered ++ (m ∷ []) })
  ]

  unfoldable pub build_message_chain : List ConversationMessage → Option (List ConversationMessage)
  unfolding traverse
  build_message_chain messages = elim (find? is_head messages) [
    | none ↦ some (sort messages)
    | some head ↦
        elim (traverse messages (suc (length messages)) head
          (record { visited = []; ordered = [] })) [
            | none ↦ none
            | some w ↦
                some (w.ordered ++ sort (filter (λ m. not (contains m.uuid w.visited)) messages))
          ]
  ]
