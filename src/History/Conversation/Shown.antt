-- ===== src/History/Conversation/Shown.antt =====
-- Lemmas on the messages of the conversation that claude-history-reader.ts makes for one session.
use mathlib.Core.List.Perm
use mathlib.Core.List.{Perm}
use mathlib.Core.List
use mathlib.Core.Bool.{Bool-discrete}
use mathlib.Core.Logic.{ite}
use private_agent_platform.Base.{
  Bool-cases, inl, inr, ℕ, String, Bool, true, false, not, List, [], ◌∷◌, Option, none, some, ◌≡◌,
  refl, ◌∙◌, ap, arith, is_some, filter, all, if◌then◌else◌,
}
use private_agent_platform.JsMap.{JsMap}
use private_agent_platform.JsonLines.{is_empty}
use private_agent_platform.Types.{ConversationMessage}
use private_agent_platform.Filter.{returns, throws, filter_messages}
use private_agent_platform.Filter.Kept.{is_readable, is_shown, filter_messages-shown}
use private_agent_platform.History.Chain.Complete.{HasDistinctIds, build_message_chain-perm}
use private_agent_platform.History.Entries.{SourcedEntry}
use private_agent_platform.History.Conversation.{
  ConversationChain, make_chain, chain_of_ordered, messages_of_entries, build_conversation_chain,
}

module _ {ℓ} {A : Type ℓ} (p : A → Bool) where
  filter-library :
      (xs : List A)
      → List.filter {p = λ x. p x ≡ true} (λ x. Bool-discrete (p x) true) xs ≡ filter p xs
  filter-library [] = refl
  filter-library (x ∷ xs) =
      go (p x) (List.filter {p = λ x. p x ≡ true} (λ x. Bool-discrete (p x) true) xs)
      ∙ ap (λ ys. if p x then x ∷ ys else ys) (filter-library xs)
    where
      go :
          (b : Bool) (ys : List A)
          → ite {C = List A} (Bool-discrete b true) (x ∷ ys) ys ≡ (if b then x ∷ ys else ys)
      go true ys = refl
      go false ys = refl

  filter-perm : {xs ys : List A} → Perm xs ys → Perm (filter p xs) (filter p ys)
  filter-perm {xs} {ys} q =
      rw (filter-library xs, filter-library ys) at
        (Perm.filter {p = λ x. p x ≡ true} (λ x. Bool-discrete (p x) true) q)

  none_refused : (xs : List A) → all p xs ≡ true → filter (λ x. not (p x)) xs ≡ []
  none_refused [] h = refl
  none_refused (x ∷ xs) h = ground (arith, none_refused xs)

  all_accepted : (xs : List A) → filter (λ x. not (p x)) xs ≡ [] → all p xs ≡ true
  all_accepted [] h = refl
  all_accepted (x ∷ xs) h = ground (arith, all_accepted xs)

all-perm {ℓ} :
    {A : Type ℓ} (p : A → Bool) {xs ys : List A} → Perm xs ys → all p ys ≡ true → all p xs ≡ true
all-perm p {xs} {ys} q h =
    let none_refused_there = none_refused p ys h in
    let emptied : Perm (filter (λ x. not (p x)) xs) [] =
      rw none_refused_there at (filter-perm (λ x. not (p x)) q) in
    all_accepted p xs (Perm.eq-nil emptied)

is_empty-perm {ℓ} : {A : Type ℓ} (xs ys : List A) → Perm xs ys → is_empty xs ≡ is_empty ys
is_empty-perm [] ys q = ap is_empty (Perm.nil-eq q)
is_empty-perm (x ∷ xs) [] q = ap is_empty (Perm.eq-nil q)
is_empty-perm (x ∷ xs) (y ∷ ys) q = refl

-- The messages of a conversation, none where there is no conversation.
abbrev pub chain_messages : Option ConversationChain → List ConversationMessage
chain_messages none = []
chain_messages (some c) = c.messages

module _ (now s : String) (es : List SourcedEntry) (summaries : JsMap String) where
  -- A conversation is made just of messages, and only of some.
  abbrev IsMadeOf : List ConversationMessage → Option ConversationChain → Type 0
  IsMadeOf ms made = (chain_messages made ≡ ms) × (is_some made ≡ not (is_empty ms))

  make_chain-IsMadeOf :
      (m : ConversationMessage) (ms : List ConversationMessage)
      → IsMadeOf ms (make_chain now s es summaries m (returns ms))
  unfolding make_chain
  make_chain-IsMadeOf m [] = (refl, refl)
  make_chain-IsMadeOf m (x ∷ xs) = (refl, refl)

  chain_of_ordered-IsMadeOf :
      (ms : List ConversationMessage)
      → all is_readable ms ≡ true
      → IsMadeOf (filter is_shown ms) (chain_of_ordered now s es summaries (some ms))
  unfolding chain_of_ordered
  chain_of_ordered-IsMadeOf [] h = (refl, refl)
  chain_of_ordered-IsMadeOf (m ∷ ms) h =
      let filtered : filter_messages (m ∷ ms) ≡ returns (filter is_shown (m ∷ ms)) =
        filter_messages-shown (m ∷ ms)
        ∙ ap (λ b. if b then returns (filter is_shown (m ∷ ms)) else throws) h in
      rw filtered (make_chain-IsMadeOf m (filter is_shown (m ∷ ms)))

-- Where the messages of a session have distinct ids, and no user message lacks a body, the
-- conversation holds exactly the messages that are shown, each once, and there is a conversation
-- just if some message is shown.
pub build_conversation_chain-shown :
    (time : String → ℕ) (now s : String) (es : List SourcedEntry) (summaries : JsMap String)
    → HasDistinctIds (messages_of_entries es)
    → all is_readable (messages_of_entries es) ≡ true
    → let made = build_conversation_chain time now s es summaries in
      let shown = filter is_shown (messages_of_entries es) in
      Perm (chain_messages made) shown × (is_some made ≡ not (is_empty shown))
unfolding build_conversation_chain
build_conversation_chain-shown time now s es summaries d h =
    let ms = messages_of_entries es in
    let (chain, built, q) = build_message_chain-perm time ms d in
    let (same, present) =
      chain_of_ordered-IsMadeOf now s es summaries chain (all-perm is_readable q h) in
    let shown : Perm (filter is_shown chain) (filter is_shown ms) = filter-perm is_shown q in
    rw built (
      rw same shown,
      present ∙ ap not (is_empty-perm (filter is_shown chain) (filter is_shown ms) shown),
    )

-- Where the messages of a session have distinct ids, and some user message lacks a body, the session
-- has no conversation.
pub build_conversation_chain_unreadable :
    (time : String → ℕ) (now s : String) (es : List SourcedEntry) (summaries : JsMap String)
    → HasDistinctIds (messages_of_entries es)
    → all is_readable (messages_of_entries es) ≡ false
    → build_conversation_chain time now s es summaries ≡ none
unfolding build_conversation_chain
build_conversation_chain_unreadable time now s es summaries d h =
    let ms = messages_of_entries es in
    let (chain, built, q) = build_message_chain-perm time ms d in
    rw built (elim (Bool-cases (all is_readable chain)) [
      | inl readable ↦
          let all_there : all is_readable ms ≡ true = all-perm is_readable (Perm.symm q) readable in
          absurd (cc (all_there, h))
      | inr unreadable ↦ go chain unreadable
    ])
  where
    go :
        (ms : List ConversationMessage)
        → all is_readable ms ≡ false
        → chain_of_ordered now s es summaries (some ms) ≡ none
    go [] e = absurd (cc e)
    go (m ∷ ms) e =
        let thrown : filter_messages (m ∷ ms) ≡ throws =
          filter_messages-shown (m ∷ ms)
          ∙ ap (λ b. if b then returns (filter is_shown (m ∷ ms)) else throws) e in
        unfold chain_of_ordered in (rw thrown (unfold make_chain in refl))
