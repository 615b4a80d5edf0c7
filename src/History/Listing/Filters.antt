-- ===== src/History/Listing/Filters.antt =====
-- Lemmas on the conversations that the filters of claude-history-reader.ts list.
use mathlib.Core.List.Perm
use mathlib.Core.List.{Perm}
use private_agent_platform.Base.{
  ℕ, String, Bool, true, false, ◌&&◌, List, [], ◌∷◌, Option, none, some, ◌≡◌, refl, sym, ◌∙◌, ap,
  arith, leb, filter, filter-always, filter-filter, All, Bool-cases, inl, inr,
}
use private_agent_platform.Types.{ConversationSummary}
use private_agent_platform.History.Listing.{
  SortBy, Order, asc, desc, Query, unless_blank, is_in_project, is_continued, is_archived,
  is_pinned, is_of_type, narrow, narrow_all, sort_key, comes_first, insert_by, sort_by,
  apply_filters,
}

-- Whether the conversation passes the test, if there is one.
abbrev passes_test :
    {A : Type 0} → Option A → (A → ConversationSummary → Bool) → ConversationSummary → Bool
passes_test none p c = true
passes_test (some a) p c = p a c

-- Whether the conversation has all that the query asks for.
abbrev pub passes : Query → ConversationSummary → Bool
passes q c =
    ((((passes_test (unless_blank q.project_path) is_in_project c
            && passes_test q.has_continuation is_continued c)
          && passes_test q.archived is_archived c)
        && passes_test q.pinned is_pinned c)
      && passes_test (unless_blank q.session_type) is_of_type c)

narrow-filter :
    {A : Type 0} (o : Option A) (p : A → ConversationSummary → Bool) (cs : List ConversationSummary)
    → narrow o p cs ≡ filter (passes_test o p) cs
unfolding narrow
narrow-filter none p cs = sym (filter-always cs)
narrow-filter (some a) p cs = refl

-- One more test on a list that is filtered already.
narrow-step :
    {A : Type 0} {xs : List ConversationSummary} (o : Option A) (p : A → ConversationSummary → Bool)
    (r : ConversationSummary → Bool) (cs : List ConversationSummary)
    → xs ≡ filter r cs
    → narrow o p xs ≡ filter (λ c. r c && passes_test o p c) cs
narrow-step o p r cs e =
    ap (narrow o p) e ∙ narrow-filter o p (filter r cs) ∙ filter-filter (passes_test o p) r cs

narrow_all-filter :
    (q : Query) (cs : List ConversationSummary) → narrow_all q cs ≡ filter (passes q) cs
unfolding narrow_all
narrow_all-filter q cs =
    let in_project = passes_test (unless_blank q.project_path) is_in_project in
    let continued =
      λ (c : ConversationSummary). in_project c && passes_test q.has_continuation is_continued c in
    let archived =
      λ (c : ConversationSummary). continued c && passes_test q.archived is_archived c in
    let pinned = λ (c : ConversationSummary). archived c && passes_test q.pinned is_pinned c in
    narrow-step (unless_blank q.session_type) is_of_type pinned cs (
      narrow-step q.pinned is_pinned archived cs (
        narrow-step q.archived is_archived continued cs (
          narrow-step q.has_continuation is_continued in_project cs
            (narrow-filter (unless_blank q.project_path) is_in_project cs))))

insert_by-perm :
    (first : ConversationSummary → ConversationSummary → Bool) (c : ConversationSummary)
    (xs : List ConversationSummary)
    → Perm (insert_by first c xs) (c ∷ xs)
unfolding insert_by
insert_by-perm first c [] = Perm.refl (c ∷ [])
insert_by-perm first c (x ∷ xs) = elim (Bool-cases (first c x)) [
  | inl e ↦ rw e (Perm.refl (c ∷ x ∷ xs))
  | inr e ↦ rw e (Perm.trans (Perm.cons x (insert_by-perm first c xs)) (Perm.swap c x xs))
]

sort_by-perm :
    (first : ConversationSummary → ConversationSummary → Bool) (xs : List ConversationSummary)
    → Perm (sort_by first xs) xs
unfolding sort_by
sort_by-perm first [] = Perm.refl []
sort_by-perm first (x ∷ xs) =
    Perm.trans (insert_by-perm first x (sort_by first xs)) (Perm.cons x (sort_by-perm first xs))

-- Every conversation comes before all that follow it.
abbrev IsOrdered :
    (ConversationSummary → ConversationSummary → Bool) → List ConversationSummary → Type 0
IsOrdered first [] = Unit
IsOrdered first (x ∷ xs) = All (λ y. first x y ≡ true) xs × IsOrdered first xs

-- What a comparison of times satisfies.
record IsOrder (first : ConversationSummary → ConversationSummary → Bool) : Type 0 where
  total : (a b : ConversationSummary) → first a b ≡ false → first b a ≡ true
  trans : (a b c : ConversationSummary) → first a b ≡ true → first b c ≡ true → first a c ≡ true

leb_total : (m n : ℕ) → leb m n ≡ false → leb n m ≡ true
leb_total m n h = ground arith

leb_trans : (l m n : ℕ) → leb l m ≡ true → leb m n ≡ true → leb l n ≡ true
leb_trans l m n h k = ground arith

comes_first-IsOrder :
    (time : String → ℕ) (by : SortBy) (order : Option Order) → IsOrder (comes_first time by order)
comes_first-IsOrder time by (some desc) = record {
  total = λ a b h. leb_total (sort_key time by b) (sort_key time by a) h;
  trans = λ a b c h k. leb_trans (sort_key time by c) (sort_key time by b) (sort_key time by a) k h;
}
comes_first-IsOrder time by (some asc) = record {
  total = λ a b h. leb_total (sort_key time by a) (sort_key time by b) h;
  trans = λ a b c h k. leb_trans (sort_key time by a) (sort_key time by b) (sort_key time by c) h k;
}
comes_first-IsOrder time by none = record {
  total = λ a b h. leb_total (sort_key time by a) (sort_key time by b) h;
  trans = λ a b c h k. leb_trans (sort_key time by a) (sort_key time by b) (sort_key time by c) h k;
}

module _ (first : ConversationSummary → ConversationSummary → Bool) (law : IsOrder first) where
  All-first :
      (c x : ConversationSummary) (xs : List ConversationSummary)
      → first c x ≡ true
      → All (λ y. first x y ≡ true) xs
      → All (λ y. first c y ≡ true) xs
  All-first c x [] h a = tt
  All-first c x (y ∷ ys) h a = (law.trans c x y h a.0, All-first c x ys h a.1)

  insert_by-All :
      (x c : ConversationSummary) (xs : List ConversationSummary)
      → first x c ≡ true
      → All (λ y. first x y ≡ true) xs
      → All (λ y. first x y ≡ true) (insert_by first c xs)
  unfolding insert_by
  insert_by-All x c [] h a = (h, tt)
  insert_by-All x c (y ∷ ys) h a = elim (Bool-cases (first c y)) [
    | inl e ↦ rw e (h, a)
    | inr e ↦ rw e (a.0, insert_by-All x c ys h a.1)
  ]

  insert_by-IsOrdered :
      (c : ConversationSummary) (xs : List ConversationSummary)
      → IsOrdered first xs
      → IsOrdered first (insert_by first c xs)
  unfolding insert_by
  insert_by-IsOrdered c [] o = (tt, tt)
  insert_by-IsOrdered c (x ∷ xs) o = elim (Bool-cases (first c x)) [
    | inl e ↦ rw e ((e, All-first c x xs e o.0), o)
    | inr e ↦ rw e (insert_by-All x c xs (law.total c x e) o.0, insert_by-IsOrdered c xs o.1)
  ]

  sort_by-IsOrdered : (xs : List ConversationSummary) → IsOrdered first (sort_by first xs)
  unfolding sort_by
  sort_by-IsOrdered [] = tt
  sort_by-IsOrdered (x ∷ xs) = insert_by-IsOrdered x (sort_by first xs) (sort_by-IsOrdered xs)

-- The order that the query asks for, if it asks for one.
abbrev pub IsOrderedBy : (String → ℕ) → Query → Option SortBy → List ConversationSummary → Type 0
IsOrderedBy time q none cs = Unit
IsOrderedBy time q (some by) cs = IsOrdered (comes_first time by q.order) cs

-- With a query, exactly the conversations that have all it asks for are listed, each as often as it
-- is there, and in the order of the time that the query names, if it names one.
pub apply_filters-passes :
    (time : String → ℕ) (q : Query) (cs : List ConversationSummary)
    → Perm (apply_filters time (some q) cs) (filter (passes q) cs)
      × IsOrderedBy time q q.sort_by (apply_filters time (some q) cs)
unfolding apply_filters
apply_filters-passes time q cs = go q.sort_by
  where
    go :
        (s : Option SortBy)
        → let listed = elim s as (λ x. List ConversationSummary) [
          | none ↦ narrow_all q cs
          | some by ↦ sort_by (comes_first time by q.order) (narrow_all q cs)
        ] in
          Perm listed (filter (passes q) cs) × IsOrderedBy time q s listed
    go none = (rw (narrow_all-filter q cs) (Perm.refl (filter (passes q) cs)), tt)
    go (some by) =
        let first = comes_first time by q.order in
        (
          rw (narrow_all-filter q cs) (sort_by-perm first (filter (passes q) cs)),
          sort_by-IsOrdered first (comes_first-IsOrder time by q.order) (narrow_all q cs),
        )
