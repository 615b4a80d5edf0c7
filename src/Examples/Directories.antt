-- ===== src/Examples/Directories.antt =====
-- Runs of WorkingDirectories.antt.
use private_agent_platform.Base.{
  some, ℕ, ◌+◌, String, List, [], ◌∷◌, ◌==◌, length, filter, codes, split, text_eq, ◌≡◌, ◌≢◌, refl,
  arith,
}
use private_agent_platform.JsMap
use private_agent_platform.JsMap.{JsMap}
use private_agent_platform.WorkingDirectories.{
  Metadata, Conversation, add_conversation, build_directory_map, add_discovered, directory_map,
  segments, suffix, join, is_unique, find_suffix, shortname, compute_shortnames,
}
use private_agent_platform.WorkingDirectories.Counts.{
  described, or_discovered, directory_map-described,
}
use private_agent_platform.WorkingDirectories.Shortest.{Finds, shortname-Finds}
use private_agent_platform.WorkingDirectories.Distinct.{HasUnique, shortname-distinct}

-- The length of a date stands for its time.
abbrev time : String → ℕ
time s = length (codes s)

abbrev conversations : List Conversation
conversations = ("/a", "2024") ∷ ("/b", "20") ∷ ("", "2025") ∷ ("/a", "202512") ∷ []

-- What the scan found: a known directory, and a new one.
abbrev scanned : JsMap Metadata
scanned =
    ("/a", record { last_date = 9; count = 0 }) ∷ ("/c", record { last_date = 9; count = 0 }) ∷ []

directory_map-described_example :
    JsMap.get "/a" (directory_map time scanned conversations)
    ≡ or_discovered
        (described time (filter (λ c. c.0 == "/a") conversations))
        (JsMap.get "/a" scanned)
directory_map-described_example = directory_map-described time scanned conversations "/a" refl

discovered_c :
    JsMap.get "/c" (directory_map time scanned conversations)
    ≡ some (record { last_date = 9; count = 0 })
unfolding JsMap.get JsMap.set directory_map build_directory_map add_conversation add_discovered
discovered_c = refl

abbrev paths : List String
paths = "/home/alice/project" ∷ "/home/bob/project" ∷ "/home/bob/web" ∷ []

named :
    compute_shortnames paths
    ≡ ("/home/alice/project", codes "alice/project")
      ∷ ("/home/bob/project", codes "bob/project")
      ∷ ("/home/bob/web", codes "web")
      ∷ []
unfolding compute_shortnames shortname find_suffix is_unique segments suffix join split text_eq
named = refl

shortname-Finds_example :
    Finds paths "/home/bob/web" 1
      (1 + length (segments "/home/bob/web"))
      (codes "/home/bob/web")
      (shortname paths "/home/bob/web")
shortname-Finds_example = shortname-Finds paths "/home/bob/web"

alice : HasUnique paths "/home/alice/project"
unfolding is_unique segments suffix join split text_eq
alice = (2, omega arith, omega arith, refl)

bob : HasUnique paths "/home/bob/project"
unfolding is_unique segments suffix join split text_eq
bob = (2, omega arith, omega arith, refl)

shortname-distinct_example :
    shortname paths "/home/bob/project" ≢ shortname paths "/home/alice/project"
shortname-distinct_example =
    shortname-distinct paths "/home/alice/project" "/home/bob/project" refl refl alice bob
