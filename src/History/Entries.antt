-- ===== src/History/Entries.antt =====
-- The entries of history files, with the project whose file holds them, and how they are grouped
-- and turned into messages (claude-history-reader.ts). A missing `message` is the body `missing`.
pub mod Groups
use private_agent_platform.Base.{
  ℕ, String, Bool, ◌&&◌, ◌||◌, List, [], ◌∷◌, ◌++◌, Option, none, some, ◌==◌, if◌then◌else◌,
  is_truthy,
}
use private_agent_platform.JsMap
use private_agent_platform.JsMap.{JsMap}
use private_agent_platform.Status.{or_default}
use private_agent_platform.Types.{Body, MessageType, user, assistant, system, ConversationMessage}

pub record RawJsonEntry : Type 0 where
  pub type : String
  pub uuid : Option String
  pub session_id : Option String
  pub parent_uuid : Option String
  pub timestamp : Option String
  pub message : Body
  pub cwd : Option String
  pub duration_ms : Option ℕ
  pub is_sidechain : Option Bool
  pub user_type : Option String
  pub version : Option String
  pub summary : Option String
  pub leaf_uuid : Option String

-- An entry with its field `sourceProject`.
abbrev pub SourcedEntry : Type 0
SourcedEntry = RawJsonEntry × String

abbrev pub or_none {ℓ} : {A : Type ℓ} → Option (List A) → List A
or_none none = []
or_none (some xs) = xs

-- Only user and assistant messages are grouped.
abbrev pub is_message : RawJsonEntry → Bool
is_message e = e.type == "user" || e.type == "assistant"

-- The body of the loop of `groupEntriesBySession`.
pub group_entry : SourcedEntry → JsMap (List SourcedEntry) → JsMap (List SourcedEntry)
group_entry e groups = elim e.0.session_id [
  | none ↦ groups
  | some s ↦
      if is_message e.0 && is_truthy s
      then JsMap.set s (or_none (JsMap.get s groups) ++ (e ∷ [])) groups
      else groups
]

pub group_from : List SourcedEntry → JsMap (List SourcedEntry) → JsMap (List SourcedEntry)
unfolding group_entry
group_from [] groups = groups
group_from (e ∷ es) groups = group_from es (group_entry e groups)

unfoldable pub group_entries_by_session : List SourcedEntry → JsMap (List SourcedEntry)
unfolding group_from
group_entries_by_session es = group_from es []

-- The body of the loop of `processSummaries`.
pub add_summary : RawJsonEntry → JsMap String → JsMap String
add_summary e summaries = elim e.leaf_uuid [
  | none ↦ summaries
  | some leaf ↦ elim e.summary [
    | none ↦ summaries
    | some summary ↦
        if e.type == "summary" && (is_truthy leaf && is_truthy summary)
        then JsMap.set leaf summary summaries
        else summaries
  ]
]

pub summaries_from : List SourcedEntry → JsMap String → JsMap String
unfolding add_summary
summaries_from [] summaries = summaries
summaries_from (e ∷ es) summaries = summaries_from es (add_summary e.0 summaries)

unfoldable pub process_summaries : List SourcedEntry → JsMap String
unfolding summaries_from
process_summaries es = summaries_from es []

-- The cast of `entry.type`: entries that are grouped have one of the first two.
abbrev message_type : String → MessageType
message_type t = if t == "user" then user else if t == "assistant" then assistant else system

unfoldable pub parse_message : RawJsonEntry → ConversationMessage
parse_message e = record {
  uuid = or_default e.uuid "";
  type = message_type e.type;
  message = e.message;
  timestamp = or_default e.timestamp "";
  session_id = or_default e.session_id "";
  parent_uuid = e.parent_uuid;
  is_sidechain = e.is_sidechain;
  user_type = e.user_type;
  cwd = e.cwd;
  version = e.version;
  duration_ms = e.duration_ms;
}
