-- ===== src/Filter.antt =====
-- web/cui/src/services/message-filter.ts: local command messages are hidden from the history.
pub mod Kept
pub mod Trimmed
pub mod Commands
use private_agent_platform.Base.{
  String, Bool, true, false, not, List, [], ◌∷◌, map, Option, none, some, if◌then◌else◌, is_truthy,
  any, codes, trim, starts_with,
}
use private_agent_platform.Types.{
  Block, text_block, tool_use, other_block, Content, no_content, text, blocks, Body, missing, plain,
  object, MessageType, user, assistant, system, ConversationMessage,
}

abbrev filtered_prefixes : List String
filtered_prefixes =
    "Caveat: " ∷ "<command-name>" ∷ "<local-command-stdout>" ∷ "<local-command-caveat>" ∷ []

-- The text of the first block of type `text`.
pub first_text : List Block → Option String
first_text [] = none
first_text (text_block t ∷ bs) = t
first_text (tool_use id name input ∷ bs) = first_text bs
first_text (other_block type ∷ bs) = first_text bs

pub content_text : Content → Option String
unfolding first_text
content_text no_content = none
content_text (text t) = if is_truthy t then some t else none
content_text (blocks bs) = first_text bs

-- What a call may do: return, or throw a TypeError.
pub data Outcome {ℓ} (A : Type ℓ) : Type ℓ where
  returns : A → Outcome A
  throws : Outcome A

infixl 5 ◌>>=◌
abbrev pub ◌>>=◌ {ℓ κ} : {A : Type ℓ} {B : Type κ} → Outcome A → (A → Outcome B) → Outcome B
returns a >>= f = f a
throws >>= f = throws

-- A message without a body makes the read of `message.content` throw.
pub extract_text_content : Body → Outcome (Option String)
unfolding content_text
extract_text_content missing = throws
extract_text_content (plain s) = returns (some s)
extract_text_content (object o) = returns (content_text o.content)

pub has_filtered_prefix : String → Bool
has_filtered_prefix t = any (λ p. starts_with (codes p) (trim (codes t))) filtered_prefixes

abbrev pub keeps_text : Option String → Bool
keeps_text none = true
keeps_text (some t) = if is_truthy t then not (has_filtered_prefix t) else true

abbrev pub is_user : MessageType → Bool
is_user user = true
is_user assistant = false
is_user system = false

pub should_keep_message : ConversationMessage → Outcome Bool
unfolding extract_text_content has_filtered_prefix
should_keep_message m =
    if is_user m.type
    then (extract_text_content m.message >>= λ t. returns (keeps_text t))
    else returns true

-- `messages.filter(...)`, whose callback may throw.
unfoldable pub filter_messages : List ConversationMessage → Outcome (List ConversationMessage)
unfolding should_keep_message
filter_messages [] = returns []
filter_messages (m ∷ ms) = do
  kept ← should_keep_message m
  rest ← filter_messages ms
  returns (if kept then m ∷ rest else rest)
