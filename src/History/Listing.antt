-- ===== src/History/Listing.antt =====
-- `applyFilters` and `applyPagination` of claude-history-reader.ts. `time` reads a time stamp, which
-- is taken to be a valid date; `sort` of an array is stable.
pub mod Filters
pub mod Pages
use private_agent_platform.Base.{
  ℕ, zero, suc, ◌+◌, String, Bool, true, false, not, List, [], ◌∷◌, Option, none, some, ◌==◌,
  if◌then◌else◌, leb, filter, take, drop, is_truthy,
}
use private_agent_platform.Types.{ConversationSummary}

pub data SortBy : Type 0 where
  created updated : SortBy

pub data Order : Type 0 where
  asc desc : Order

pub record Query : Type 0 where
  pub project_path : Option String
  pub limit : Option ℕ
  pub offset : Option ℕ
  pub sort_by : Option SortBy
  pub order : Option Order
  pub has_continuation : Option Bool
  pub archived : Option Bool
  pub pinned : Option Bool
  pub session_type : Option String

-- An empty string counts as absent.
abbrev pub unless_blank : Option String → Option String
unless_blank none = none
unless_blank (some s) = if is_truthy s then some s else none

abbrev eq_bool : Bool → Bool → Bool
eq_bool a b = if a then b else not b

abbrev pub is_in_project : String → ConversationSummary → Bool
is_in_project path c = c.project_path == path

abbrev pub is_continued : Bool → ConversationSummary → Bool
is_continued wanted c =
    let continued = not (c.session_info.continuation_session_id == "") in
    if wanted then continued else not continued

abbrev pub is_archived : Bool → ConversationSummary → Bool
is_archived wanted c = eq_bool c.session_info.archived wanted

abbrev pub is_pinned : Bool → ConversationSummary → Bool
is_pinned wanted c = eq_bool c.session_info.pinned wanted

abbrev pub is_of_type : String → ConversationSummary → Bool
is_of_type type c = c.session_info.session_type == type

-- One of the filters: an absent field filters nothing.
pub narrow :
    {A : Type 0}
    → Option A
    → (A → ConversationSummary → Bool)
    → List ConversationSummary
    → List ConversationSummary
narrow none p cs = cs
narrow (some a) p cs = filter (p a) cs

pub narrow_all : Query → List ConversationSummary → List ConversationSummary
unfolding narrow
narrow_all q cs = narrow (unless_blank q.session_type) is_of_type (
    narrow q.pinned is_pinned (
      narrow q.archived is_archived (
        narrow q.has_continuation is_continued
          (narrow (unless_blank q.project_path) is_in_project cs))))

module _ (time : String → ℕ) where
  -- The field to sort by, as a time.
  abbrev pub sort_key : SortBy → ConversationSummary → ℕ
  sort_key created c = time c.created_at
  sort_key updated c = time c.updated_at

  -- Whether the comparison leaves the first before the second; without an order it ascends.
  abbrev pub comes_first : SortBy → Option Order → ConversationSummary → ConversationSummary → Bool
  comes_first by (some desc) a b = leb (sort_key by b) (sort_key by a)
  comes_first by (some asc) a b = leb (sort_key by a) (sort_key by b)
  comes_first by none a b = leb (sort_key by a) (sort_key by b)

-- A stable sort, by insertion from the right.
pub insert_by :
    (ConversationSummary → ConversationSummary → Bool)
    → ConversationSummary
    → List ConversationSummary
    → List ConversationSummary
insert_by first c [] = c ∷ []
insert_by first c (x ∷ xs) =
    let rest = insert_by first c xs in if first c x then c ∷ x ∷ xs else x ∷ rest

pub sort_by :
    (ConversationSummary → ConversationSummary → Bool)
    → List ConversationSummary
    → List ConversationSummary
unfolding insert_by
sort_by first [] = []
sort_by first (c ∷ cs) = insert_by first c (sort_by first cs)

module _ (time : String → ℕ) where
  unfoldable pub apply_filters : Option Query → List ConversationSummary → List ConversationSummary
  unfolding narrow_all sort_by
  apply_filters none cs = cs
  apply_filters (some q) cs = elim q.sort_by [
    | none ↦ narrow_all q cs
    | some by ↦ sort_by (comes_first time by q.order) (narrow_all q cs)
  ]

-- `value || default`
abbrev pub or_number : Option ℕ → ℕ → ℕ
or_number none d = d
or_number (some zero) d = d
or_number (some (suc n)) d = suc n

-- `slice(offset, offset + limit)`
pub apply_pagination : Option Query → List ConversationSummary → List ConversationSummary
apply_pagination none cs = cs
apply_pagination (some q) cs = take (or_number q.limit 20) (drop (or_number q.offset 0) cs)
