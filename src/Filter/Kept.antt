-- ===== src/Filter/Kept.antt =====
-- The messages that message-filter.ts keeps, as a test, and lemmas on it.
use private_agent_platform.Base.{
  String, Bool, true, false, not, ◌||◌, List, [], ◌∷◌, Option, none, some, if◌then◌else◌, ◌≡◌, refl,
  ◌∙◌, ap, filter, all, arith, Bool-cases, inl, inr,
}
use private_agent_platform.Types.{
  Body, missing, plain, object, MessageType, user, assistant, system, ConversationMessage,
}
use private_agent_platform.Filter.{
  returns, throws, ◌>>=◌, extract_text_content, content_text, keeps_text, is_user,
  should_keep_message, filter_messages,
}

-- The text of a body, none for a body that is missing.
abbrev pub body_text : Body → Option String
body_text missing = none
body_text (plain s) = some s
body_text (object o) = content_text o.content

abbrev has_body : Body → Bool
has_body missing = false
has_body (plain s) = true
has_body (object o) = true

-- A message is readable unless it is a user message without a body.
abbrev pub is_readable : ConversationMessage → Bool
is_readable m = not (is_user m.type) || has_body m.message

-- A message is shown unless it is a user message whose text begins, white space aside, with one of
-- the prefixes.
abbrev pub is_shown : ConversationMessage → Bool
is_shown m = not (is_user m.type) || keeps_text (body_text m.message)

should_keep_message-body :
    (m : ConversationMessage)
    → should_keep_message m ≡ (if is_readable m then returns (is_shown m) else throws)
unfolding should_keep_message
should_keep_message-body m = go m.type m.message
  where
    go :
        (t : MessageType) (b : Body)
        → (if is_user t
            then (extract_text_content b >>= λ x. returns (keeps_text x))
            else returns true)
          ≡ (if not (is_user t) || has_body b
              then returns (not (is_user t) || keeps_text (body_text b))
              else throws)
    go user missing = refl
    go user (plain s) = refl
    go user (object o) = refl
    go assistant b = refl
    go system b = refl

-- The filter throws if some message is not readable, and otherwise keeps those that are shown.
pub filter_messages-shown :
    (ms : List ConversationMessage)
    → filter_messages ms ≡ (if all is_readable ms then returns (filter is_shown ms) else throws)
unfolding filter_messages
filter_messages-shown [] = refl
filter_messages-shown (m ∷ ms) =
    rw (should_keep_message-body m, filter_messages-shown ms)
      (elim (Bool-cases (is_readable m)) [
        | inl r ↦ rw r (elim (Bool-cases (all is_readable ms)) [ inl a ↦ rw a | inr a ↦ rw a ])
        | inr r ↦ rw r
      ])

filter_idem {ℓ} : {A : Type ℓ} (p : A → Bool) (xs : List A) → filter p (filter p xs) ≡ filter p xs
filter_idem p [] = refl
filter_idem p (x ∷ xs) = ground (arith, filter_idem p xs)

all-filter {ℓ} :
    {A : Type ℓ} (p q : A → Bool) (xs : List A) → all p xs ≡ true → all p (filter q xs) ≡ true
all-filter p q [] h = refl
all-filter p q (x ∷ xs) h = ground (arith, all-filter p q xs)

-- To filter what was filtered changes nothing.
pub filter_messages_idem :
    (ms shown : List ConversationMessage)
    → filter_messages ms ≡ returns shown
    → filter_messages shown ≡ returns shown
filter_messages_idem ms shown e = elim (Bool-cases (all is_readable ms)) [
  | inl a ↦
      let s : shown ≡ filter is_shown ms = cc (
        filter_messages-shown ms,
        ap (λ b. if b then returns (filter is_shown ms) else throws) a,
      ) in
      rw s (
        filter_messages-shown (filter is_shown ms)
        ∙ rw (all-filter is_readable is_shown ms a, filter_idem is_shown ms))
  | inr a ↦ absurd (
      cc (filter_messages-shown ms, ap (λ b. if b then returns (filter is_shown ms) else throws) a))
]
