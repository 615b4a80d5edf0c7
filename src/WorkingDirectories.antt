-- ===== src/WorkingDirectories.antt =====
-- web/cui/src/services/working-directories-service.ts: the directories of the conversations, with
-- short names. `time` is the reading of a date, which the code takes to be valid; the list of the
-- conversations and what a scan of the file system discovers are arguments.
pub mod Counts
pub mod Shortest
pub mod Distinct
use private_agent_platform.Base.{
  ℕ, zero, suc, ◌+◌, ◌-◌, String, Bool, true, not, ◌||◌, List, [], ◌∷◌, ◌++◌, map, Option, none,
  some, ◌==◌, if◌then◌else◌, is_truthy, ltb, length, filter, all, drop, codes, split, text_eq,
}
use private_agent_platform.JsMap
use private_agent_platform.JsMap.{JsMap}
use private_agent_platform.JsonLines.{is_empty}

pub record Metadata : Type 0 where
  pub last_date : ℕ
  pub count : ℕ

-- A conversation, by its project path and the time of its last update.
abbrev pub Conversation : Type 0
Conversation = String × String

module _ (time : String → ℕ) where
  -- One turn of the loop over the conversations.
  unfoldable pub add_conversation : Conversation → JsMap Metadata → JsMap Metadata
  add_conversation (path, updated_at) m =
      if is_truthy path
      then elim (JsMap.get path m) [
        | none ↦ JsMap.set path (record { last_date = time updated_at; count = 1 }) m
        | some e ↦
            if ltb e.last_date (time updated_at)
            then JsMap.set path (record { last_date = time updated_at; count = e.count + 1 }) m
            else JsMap.set path (record e { count = e.count + 1 }) m
      ]
      else m

  unfoldable pub build_directory_map : List Conversation → JsMap Metadata → JsMap Metadata
  unfolding add_conversation
  build_directory_map [] m = m
  build_directory_map (c ∷ cs) m = build_directory_map cs (add_conversation c m)

-- The directories that the scan adds.
unfoldable pub add_discovered : JsMap Metadata → JsMap Metadata → JsMap Metadata
add_discovered [] m = m
add_discovered ((path, metadata) ∷ found) m =
    let m' = if JsMap.has path m then m else JsMap.set path metadata m in add_discovered found m'

-- The map that `getWorkingDirectories` answers from: first the conversations, then the scan.
unfoldable pub directory_map : (String → ℕ) → JsMap Metadata → List Conversation → JsMap Metadata
unfolding build_directory_map add_discovered
directory_map time found cs = add_discovered found (build_directory_map time cs [])

abbrev slash : ℕ
slash = 47

-- `path.split('/').filter(s => s)`
unfoldable pub segments : String → List (List ℕ)
segments path = filter (λ s. not (is_empty s)) (split slash (codes path))

-- `segments.join('/')`
unfoldable pub join : List (List ℕ) → List ℕ
join [] = []
join (s ∷ []) = s
join (s ∷ t ∷ ss) = s ++ (slash ∷ join (t ∷ ss))

-- `segments.slice(-n).join('/')`, for a positive number.
unfoldable pub suffix : ℕ → List (List ℕ) → List ℕ
unfolding join
suffix n segs = join (drop (length segs - n) segs)

unfoldable pub is_unique : List String → String → ℕ → Bool
unfolding segments suffix
is_unique paths path n =
    all
      (λ other.
        other == path || not (text_eq (suffix n (segments other)) (suffix n (segments path))))
      paths

-- The `while` loop from length `n` on: empty where no length is found. `fuel` is the number of lengths
-- left, up to the number of segments.
unfoldable pub find_suffix : List String → String → ℕ → ℕ → List ℕ
unfolding segments suffix is_unique
find_suffix paths path zero n = []
find_suffix paths path (suc fuel) n =
    let rest = find_suffix paths path fuel (n + 1) in
    if is_unique paths path n then suffix n (segments path) else rest

-- `shortname || path`
unfoldable pub shortname : List String → String → List ℕ
unfolding find_suffix
shortname paths path =
    let s = find_suffix paths path (length (segments path)) 1 in
    if is_empty s then codes path else s

-- `segments[segments.length - 1] || path`
unfoldable last_segment : List (List ℕ) → List ℕ → List ℕ
last_segment [] path = path
last_segment (s ∷ []) path = s
last_segment (s ∷ t ∷ ss) path = last_segment (t ∷ ss) path

unfoldable pub compute_shortnames : List String → List (String × List ℕ)
unfolding segments shortname last_segment
compute_shortnames [] = []
compute_shortnames (p ∷ []) = (p, last_segment (segments p) (codes p)) ∷ []
compute_shortnames (p ∷ q ∷ ps) = map (λ path. (path, shortname (p ∷ q ∷ ps) path)) (p ∷ q ∷ ps)
