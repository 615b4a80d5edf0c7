-- ===== src/History/Entries/Groups.antt =====
-- Lemmas on the groups of entries and the table of summaries of claude-history-reader.ts.
use mathlib.Core.List.{append_assoc, append-nil}
use private_agent_platform.Base.{
  String, Bool, false, ◌&&◌, List, [], ◌∷◌, ◌++◌, Option, none, some, ◌==◌, ◌≡◌, refl, sym, ◌∙◌, ap,
  arith, eq_iff, if◌then◌else◌, is_truthy, filter, Bool-cases, Option-cases, inl, inr,
}
use private_agent_platform.JsMap
use private_agent_platform.JsMap.{JsMap}
use private_agent_platform.JsMap.Laws.{get-set, IsDistinct, set-IsDistinct}
use private_agent_platform.History.Entries.{
  RawJsonEntry, SourcedEntry, or_none, is_message, group_entry, group_from,
  group_entries_by_session, add_summary, summaries_from, process_summaries,
}

-- Whether the entry is a message of the session.
abbrev pub is_of : String → SourcedEntry → Bool
is_of s e = elim e.0.session_id [
  | none ↦ false
  | some t ↦ (is_message e.0 && is_truthy t) && (t == s)
]

-- What a session's group becomes with further entries: a group is made with its first entry.
abbrev grown {ℓ} : {A : Type ℓ} → Option (List A) → List A → Option (List A)
grown none [] = none
grown none (x ∷ xs) = some (x ∷ xs)
grown (some ys) xs = some (ys ++ xs)

abbrev pub unless_empty {ℓ} : {A : Type ℓ} → List A → Option (List A)
unless_empty [] = none
unless_empty (x ∷ xs) = some (x ∷ xs)

grown-one {ℓ} :
    {A : Type ℓ} (x : A) (xs : List A) (found : Option (List A))
    → some ((or_none found ++ (x ∷ [])) ++ xs) ≡ grown found (x ∷ xs)
grown-one x xs none = refl
grown-one x xs (some ys) = ap some (append_assoc ys (x ∷ []) xs)

grown-nil {ℓ} : {A : Type ℓ} (found : Option (List A)) → found ≡ grown found []
grown-nil none = refl
grown-nil (some ys) = ap some (sym (append-nil ys))

grown-none {ℓ} : {A : Type ℓ} (xs : List A) → grown none xs ≡ unless_empty xs
grown-none [] = refl
grown-none (x ∷ xs) = refl

grown-entry :
    (s : String) (e : SourcedEntry) (g : JsMap (List SourcedEntry)) (es : List SourcedEntry)
    → grown (JsMap.get s (group_entry e g)) es
      ≡ grown (JsMap.get s g) (if is_of s e then e ∷ es else es)
unfolding group_entry
grown-entry s e g es = go e.0.session_id
  where
    go :
        (found : Option String)
        → grown
            (JsMap.get s (elim found as (λ x. JsMap (List SourcedEntry)) [
              | none ↦ g
              | some t ↦
                  if is_message e.0 && is_truthy t
                  then JsMap.set t (or_none (JsMap.get t g) ++ (e ∷ [])) g
                  else g
            ]))
            es
          ≡ grown (JsMap.get s g) (
              if (elim found as (λ x. Bool) [
                | none ↦ false
                | some t ↦ (is_message e.0 && is_truthy t) && (t == s)
              ])
              then e ∷ es
              else es)
    go none = refl
    go (some t) = elim (Bool-cases (is_message e.0 && is_truthy t)) [
      | inr skipped ↦ rw skipped
      | inl kept ↦
          rw (kept, get-set t s (or_none (JsMap.get t g) ++ (e ∷ [])) g)
            (elim (Bool-cases (t == s)) [
              | inr other ↦ rw other
              | inl same ↦
                  let here = (eq_iff t s).0 same in rw (same, here) (grown-one e es (JsMap.get s g))
            ])
    ]

get-group_from :
    (s : String) (es : List SourcedEntry) (g : JsMap (List SourcedEntry))
    → JsMap.get s (group_from es g) ≡ grown (JsMap.get s g) (filter (is_of s) es)
unfolding group_from
get-group_from s [] g = grown-nil (JsMap.get s g)
get-group_from s (e ∷ es) g =
    get-group_from s es (group_entry e g) ∙ grown-entry s e g (filter (is_of s) es)

group_entry-IsDistinct :
    (e : SourcedEntry) (g : JsMap (List SourcedEntry)) → IsDistinct g → IsDistinct (group_entry e g)
unfolding group_entry
group_entry-IsDistinct e g d = elim (Option-cases e.0.session_id) [
  | inl absent ↦ rw (absent, group_entry) d
  | inr (t, named) ↦ elim (Bool-cases (is_message e.0 && is_truthy t)) [
    | inr skipped ↦ rw (named, group_entry, skipped) d
    | inl kept ↦ rw (named, group_entry, kept) (set-IsDistinct t _ g d)
  ]
]

group_from-IsDistinct :
    (es : List SourcedEntry) (g : JsMap (List SourcedEntry))
    → IsDistinct g
    → IsDistinct (group_from es g)
unfolding group_from
group_from-IsDistinct [] g d = d
group_from-IsDistinct (e ∷ es) g d =
    group_from-IsDistinct es (group_entry e g) (group_entry-IsDistinct e g d)

-- The group of a session holds exactly the user and assistant entries that name this session, in
-- the order in which the files hold them; a session without such an entry has no group. No session
-- has two groups.
pub group_entries_by_session-get :
    (s : String) (es : List SourcedEntry)
    → (JsMap.get s (group_entries_by_session es) ≡ unless_empty (filter (is_of s) es))
      × IsDistinct (group_entries_by_session es)
unfolding group_entries_by_session JsMap.get
group_entries_by_session-get s es =
    (get-group_from s es [] ∙ grown-none (filter (is_of s) es), group_from-IsDistinct es [] tt)

-- The summary that the entry gives for the leaf.
abbrev summary_for : String → RawJsonEntry → Option String
summary_for leaf e = elim e.leaf_uuid [
  | none ↦ none
  | some l ↦
      if (e.type == "summary" && is_truthy l) && (l == leaf)
      then elim e.summary [ none ↦ none | some t ↦ if is_truthy t then some t else none ]
      else none
]

-- The last summary of the leaf, or else the given one.
abbrev last_summary : String → List SourcedEntry → Option String → Option String
last_summary leaf [] found = found
last_summary leaf (e ∷ es) found =
    last_summary leaf es (elim (summary_for leaf e.0) [ none ↦ found | some t ↦ some t ])

get-add_summary :
    (leaf : String) (e : RawJsonEntry) (m : JsMap String)
    → JsMap.get leaf (add_summary e m) ≡ (elim (summary_for leaf e) as (λ x. Option String) [
      | none ↦ JsMap.get leaf m
      | some t ↦ some t
    ])
unfolding add_summary
get-add_summary leaf e m = elim (Option-cases e.leaf_uuid) [
  | inl absent ↦ rw (absent, add_summary)
  | inr (l, named) ↦ elim (Option-cases e.summary) [
    | inl empty ↦ rw (named, empty, add_summary) (ground arith)
    | inr (t, told) ↦ rw (named, told, add_summary) (ground (arith, get-set l leaf t m))
  ]
]

get-summaries_from :
    (leaf : String) (es : List SourcedEntry) (m : JsMap String)
    → JsMap.get leaf (summaries_from es m) ≡ last_summary leaf es (JsMap.get leaf m)
unfolding summaries_from
get-summaries_from leaf [] m = refl
get-summaries_from leaf (e ∷ es) m =
    get-summaries_from leaf es (add_summary e.0 m)
    ∙ ap (last_summary leaf es) (get-add_summary leaf e.0 m)

-- A leaf has the summary of the last summary entry that names it and has a text.
process_summaries-last :
    (leaf : String) (es : List SourcedEntry)
    → JsMap.get leaf (process_summaries es) ≡ last_summary leaf es none
unfolding process_summaries JsMap.get
process_summaries-last leaf es = get-summaries_from leaf es []
