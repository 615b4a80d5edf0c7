-- ===== src/Filter/Commands.antt =====
-- An independent description of the messages that message-filter.ts hides: the user's whose text is a
-- local command.
use mathlib.Core.Option.{some-injective}
use private_agent_platform.Base.{
  ℕ, String, Bool, true, false, not, ◌||◌, List, [], ◌∷◌, ◌++◌, Option, none, some, ◌==◌,
  if◌then◌else◌, is_truthy, codes, trim, starts_with, all, filter, ◌≡◌, refl, sym, ap, subst, arith,
  ◌↔◌, ◌⊎◌, inl, inr, Bool-cases, eq_iff,
}
use private_agent_platform.Types.{
  Block, text_block, tool_use, other_block, Content, no_content, text, blocks, Body, missing, plain,
  object, MessageObject, MessageType, user, assistant, system, ConversationMessage,
}
use private_agent_platform.Filter.{
  returns, throws, is_user, filter_messages, first_text, content_text, has_filtered_prefix,
  keeps_text,
}
use private_agent_platform.Filter.Kept.{body_text, is_readable, is_shown, filter_messages-shown}
use private_agent_platform.Filter.Trimmed.{IsTrimmed, trim-IsTrimmed, IsTrimmed-trim}

abbrev Begins : String → List ℕ → Type 0
Begins p t = (rest : List ℕ) × (t ≡ codes p ++ rest)

abbrev HasPrefix : List ℕ → Type 0
HasPrefix t =
    Begins "Caveat: " t
    ⊎ Begins "<command-name>" t
    ⊎ Begins "<local-command-stdout>" t
    ⊎ Begins "<local-command-caveat>" t

-- A text that begins with one of the prefixes, once the white space at its ends is off.
abbrev IsCommand : String → Type 0
IsCommand s = (t : List ℕ) × IsTrimmed (codes s) t × HasPrefix t

abbrev is_text : Block → Bool
is_text (text_block t) = true
is_text (tool_use id name input) = false
is_text (other_block type) = false

-- The text of a content: the content that is a string, or the text of the first block of type text.
pub data HasContent : Content → String → Type 0 where
  whole : {t s : String} → t ≡ s → HasContent (text t) s
  first :
      {bs : List Block} {s : String} (before after : List Block)
      → bs ≡ before ++ (text_block (some s) ∷ after)
      → all (λ b. not (is_text b)) before ≡ true
      → HasContent (blocks bs) s

-- The text of a message: a bare string, or that of its content.
pub data HasText : Body → String → Type 0 where
  bare : {t s : String} → t ≡ s → HasText (plain t) s
  inside : {o : MessageObject} {s : String} → HasContent o.content s → HasText (object o) s

-- The messages that are hidden.
abbrev pub IsHidden : ConversationMessage → Type 0
IsHidden m = (m.type ≡ user) × (s : String) × HasText m.message s × IsCommand s

starts_with-append : (p t : List ℕ) → starts_with p t ≡ true → (rest : List ℕ) × (t ≡ p ++ rest)
unfolding starts_with
starts_with-append [] t h = (t, refl)
starts_with-append (x ∷ p) [] h = cc
starts_with-append (x ∷ p) (c ∷ t) h =
    let (rest, e) = starts_with-append p t (ground arith) in (rest, ground arith)

append-starts_with : (p rest : List ℕ) → starts_with p (p ++ rest) ≡ true
unfolding starts_with
append-starts_with [] rest = refl
append-starts_with (x ∷ p) rest = ground (arith, append-starts_with p rest)

starts-Begins : (p : String) (t : List ℕ) → (starts_with (codes p) t ≡ true) ↔ Begins p t
starts-Begins p t = (starts_with-append (codes p) t, λ b. rw b.1 (append-starts_with (codes p) b.0))

or_iff : {A B : Type 0} {a b : Bool} → (a ≡ true) ↔ A → (b ≡ true) ↔ B → (a || b ≡ true) ↔ (A ⊎ B)
or_iff {a = true} f g = (λ h. inl (f.0 refl), λ h. refl)
or_iff {a = false} f g = (λ h. inr (g.0 h), elim [ inl x ↦ cc (f.1 x) | inr y ↦ g.1 y ])

or_false : (b : Bool) → b || false ≡ b
or_false true = refl
or_false false = refl

prefix_iff : (s : String) → (has_filtered_prefix s ≡ true) ↔ HasPrefix (trim (codes s))
unfolding has_filtered_prefix
prefix_iff s =
    let t = trim (codes s) in
    or_iff (starts-Begins "Caveat: " t) (
      or_iff (starts-Begins "<command-name>" t) (
        or_iff (starts-Begins "<local-command-stdout>" t) (
          rw (or_false (starts_with (codes "<local-command-caveat>") t))
            (starts-Begins "<local-command-caveat>" t))))

IsCommand-iff : (s : String) → (has_filtered_prefix s ≡ true) ↔ IsCommand s
IsCommand-iff s = (
  λ h. (trim (codes s), trim-IsTrimmed (codes s), (prefix_iff s).0 h),
  λ c. (prefix_iff s).1 (subst HasPrefix (sym (IsTrimmed-trim (codes s) c.0 c.1)) c.2),
)

first_text-HasContent :
    (bs : List Block) (s : String) → first_text bs ≡ some s → HasContent (blocks bs) s
unfolding first_text
first_text-HasContent [] s h = cc
first_text-HasContent (text_block none ∷ bs) s h = cc
first_text-HasContent (text_block (some t) ∷ bs) s h =
    first [] bs (ap (λ x. text_block x ∷ bs) h) refl
first_text-HasContent (tool_use id name input ∷ bs) s h = elim (first_text-HasContent bs s h) [
  | first before after e none_ ↦
      first (tool_use id name input ∷ before) after (ap (◌∷◌ (tool_use id name input)) e) none_
]
first_text-HasContent (other_block type ∷ bs) s h = elim (first_text-HasContent bs s h) [
  | first before after e none_ ↦
      first (other_block type ∷ before) after (ap (◌∷◌ (other_block type)) e) none_
]

first_text-append :
    (before after : List Block) (s : String)
    → all (λ b. not (is_text b)) before ≡ true
    → first_text (before ++ (text_block (some s) ∷ after)) ≡ some s
unfolding first_text
first_text-append [] after s h = refl
first_text-append (text_block t ∷ before) after s h = cc
first_text-append (tool_use id name input ∷ before) after s h = first_text-append before after s h
first_text-append (other_block type ∷ before) after s h = first_text-append before after s h

content-HasContent : (c : Content) (s : String) → content_text c ≡ some s → HasContent c s
unfolding content_text
content-HasContent no_content s h = cc
content-HasContent (blocks bs) s h = first_text-HasContent bs s h
content-HasContent (text t) s h = elim (Bool-cases (is_truthy t)) [
  | inl e ↦ whole (some-injective t s (rw e at h))
  | inr e ↦ cc (rw e at h)
]

HasContent-content :
    (c : Content) (s : String) → HasContent c s → is_truthy s ≡ true → content_text c ≡ some s
unfolding content_text
HasContent-content no_content s c h = elim c [ ]
HasContent-content (text t) s (whole e) h = rw (e, h)
HasContent-content (blocks bs) s (first before after e none_) h =
    rw e (first_text-append before after s none_)

body-HasText : (b : Body) (s : String) → body_text b ≡ some s → HasText b s
body-HasText missing s h = cc
body-HasText (plain t) s h = bare (some-injective t s h)
body-HasText (object o) s h = inside (content-HasContent o.content s h)

HasText-body : (b : Body) (s : String) → HasText b s → is_truthy s ≡ true → body_text b ≡ some s
HasText-body missing s t h = elim t [ ]
HasText-body (plain t) s (bare e) h = ap some e
HasText-body (object o) s (inside c) h = HasContent-content o.content s c h

filtered-truthy : (s : String) → has_filtered_prefix s ≡ true → is_truthy s ≡ true
unfolding has_filtered_prefix starts_with trim
filtered-truthy s h = elim (Bool-cases (s == "")) [
  | inl e ↦ cc (subst (λ x. has_filtered_prefix x ≡ true) ((eq_iff s "").0 e) h)
  | inr e ↦ rw e
]

denied : (b : Bool) → not b ≡ false → b ≡ true
denied true h = refl
denied false h = cc

dropped-text :
    (o : Option String)
    → keeps_text o ≡ false
    → (s : String) × (o ≡ some s) × (has_filtered_prefix s ≡ true)
dropped-text none h = cc
dropped-text (some s) h = elim (Bool-cases (is_truthy s)) [
  | inl e ↦ (s, refl, denied (has_filtered_prefix s) (rw e at h))
  | inr e ↦ cc (rw e at h)
]

dropped_iff :
    (b : Body) → (keeps_text (body_text b) ≡ false) ↔ ((s : String) × HasText b s × IsCommand s)
dropped_iff b = (
  λ h.
      let (s, e, filtered) = dropped-text (body_text b) h in
      (s, body-HasText b s e, (IsCommand-iff s).0 filtered),
  λ (s, t, c).
      let filtered = (IsCommand-iff s).1 c in
      let truthy = filtered-truthy s filtered in rw (HasText-body b s t truthy, truthy, filtered),
)

IsHidden-iff : (m : ConversationMessage) → (is_shown m ≡ false) ↔ IsHidden m
IsHidden-iff m = go m.type m.message
  where
    go :
        (k : MessageType) (b : Body)
        → (not (is_user k) || keeps_text (body_text b) ≡ false)
          ↔ ((k ≡ user) × (s : String) × HasText b s × IsCommand s)
    go user b = (
      λ h. let (s, t, c) = (dropped_iff b).0 h in (refl, s, t, c),
      λ (e, s, t, c). (dropped_iff b).1 (s, t, c),
    )
    go assistant b = (λ h. cc, λ (e, s, t, c). cc e)
    go system b = (λ h. cc, λ (e, s, t, c). cc e)

-- The filter throws exactly if some user message has no body. Otherwise it returns, in their order,
-- the messages but those that are hidden: the user's whose text begins, without the white space at
-- its ends, with one of the four prefixes of local commands.
pub filter_messages-IsHidden :
    (ms : List ConversationMessage)
    → (filter_messages ms ≡ (if all is_readable ms then returns (filter is_shown ms) else throws))
      × ((m : ConversationMessage) → (is_shown m ≡ false) ↔ IsHidden m)
filter_messages-IsHidden ms = (filter_messages-shown ms, IsHidden-iff)
