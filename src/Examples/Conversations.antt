-- ===== src/Examples/Conversations.antt =====
-- Runs of the files under History, except History/Chain.antt.
use mathlib.Core.List.{Perm}
use private_agent_platform.Base.{
  ℕ, String, Bool, true, false, List, [], ◌∷◌, none, some, ◌≡◌, refl, filter, ◌==◌, if◌then◌else◌,
  arith, all, find?, is_some, not, ◌&&◌,
}
use private_agent_platform.Types.{
  ConversationSummary, SessionInfo, ConversationStatus, missing, plain,
}
use private_agent_platform.History.Entries.{SourcedEntry, parse_message, process_summaries}
use private_agent_platform.History.Entries.Groups.{is_of, unless_empty}
use private_agent_platform.JsonLines.{is_empty}
use private_agent_platform.Filter.Kept.{is_readable, is_shown}
use private_agent_platform.History.Chain.Complete.{HasDistinctIds}
use private_agent_platform.History.Conversation.{
  messages_of_entries, build_conversation_chain, process_all_entries,
}
use private_agent_platform.History.Conversation.Sessions.{
  conversation_of, process_all_entries-session,
}
use private_agent_platform.History.Conversation.Shown.{
  chain_messages, build_conversation_chain-shown, build_conversation_chain_unreadable,
}
use private_agent_platform.History.Cleanup.{Disk, is_in, cleanup_empty_shell_sessions}
use private_agent_platform.History.Cleanup.Kept.{is_removable, cleanup_empty_shell_sessions-files}
use private_agent_platform.History.Listing.{Query, created, desc, apply_filters}
use private_agent_platform.History.Listing.Filters.{passes, IsOrderedBy, apply_filters-passes}
use private_agent_platform.History.Listing.Pages.{pages, apply_pagination-pages}

abbrev entry : String → String → String → SourcedEntry
entry type uuid session = (
  record {
    type = type;
    uuid = some uuid;
    session_id = some session;
    parent_uuid = none;
    timestamp = some "";
    message = missing;
    cwd = none;
    duration_ms = none;
    is_sidechain = none;
    user_type = none;
    version = none;
    summary = none;
    leaf_uuid = none;
  },
  "project",
)

abbrev summary_entry : String → String → SourcedEntry
summary_entry leaf text =
    (record (entry "summary" "" "").0 { summary = some text; leaf_uuid = some leaf }, "project")

-- Two sessions whose messages alternate, with two summaries of one message.
abbrev entries : List SourcedEntry
entries =
    entry "user" "a" "s1"
    ∷ entry "user" "b" "s2"
    ∷ summary_entry "c" "first"
    ∷ entry "assistant" "c" "s1"
    ∷ summary_entry "c" "second"
    ∷ []

abbrev info : Bool → SessionInfo
info pinned = record {
  custom_name = "";
  created_at = "";
  updated_at = "";
  version = 4;
  pinned = pinned;
  archived = false;
  continuation_session_id = "";
  initial_commit_head = "";
  permission_mode = "default";
  session_type = "user";
}

abbrev conversation : String → Bool → String → ConversationSummary
conversation id pinned at = record {
  session_id = id;
  project_path = "/work";
  summary = "";
  session_info = info pinned;
  created_at = at;
  updated_at = at;
  message_count = 1;
  total_duration = 0;
  model = "default";
  status = ConversationStatus.completed;
  streaming_id = none;
  tool_metrics = none;
}

abbrev listed : List ConversationSummary
listed =
    conversation "s1" true "early"
    ∷ conversation "s2" false "late"
    ∷ conversation "s3" true "late"
    ∷ []

abbrev clock : String → ℕ
clock s = if s == "late" then 1 else 0

-- Pinned conversations, the latest first.
abbrev query : Query
query = record {
  project_path = some "/work";
  limit = none;
  offset = none;
  sort_by = some created;
  order = some desc;
  has_continuation = some false;
  archived = none;
  pinned = some true;
  session_type = some "";
}

apply_filters-passes_example :
    Perm (apply_filters clock (some query) listed) (filter (passes query) listed)
    × IsOrderedBy clock query query.sort_by (apply_filters clock (some query) listed)
apply_filters-passes_example = apply_filters-passes clock query listed

latest_first :
    apply_filters clock (some query) listed
    ≡ conversation "s3" true "late" ∷ conversation "s1" true "early" ∷ []
unfolding apply_filters
latest_first = refl

apply_pagination-pages_example : pages 2 0 2 listed ≡ listed
apply_pagination-pages_example = apply_pagination-pages 1 2 listed (omega arith)

abbrev said : String → SourcedEntry → SourcedEntry
said body e = (record e.0 { message = plain body }, e.1)

-- A local command and a text of the user, with a reply to it.
abbrev session : List SourcedEntry
session =
    said "<command-name>/clear" (entry "user" "a" "s1")
    ∷ said "hello" (entry "user" "b" "s1")
    ∷ (record (entry "assistant" "c" "s1").0 { parent_uuid = some "b" }, "project")
    ∷ []

session-HasDistinctIds : HasDistinctIds (messages_of_entries session)
unfolding parse_message
session-HasDistinctIds = ((refl, (refl, tt)), ((refl, tt), (tt, tt)))

session_readable : all is_readable (messages_of_entries session) ≡ true
unfolding parse_message
session_readable = refl

build_conversation_chain-shown_example :
    let made = build_conversation_chain clock "now" "s1" session [] in
    let shown = filter is_shown (messages_of_entries session) in
    Perm (chain_messages made) shown × (is_some made ≡ not (is_empty shown))
build_conversation_chain-shown_example =
    build_conversation_chain-shown clock "now" "s1" session [] session-HasDistinctIds
      session_readable

process_all_entries-session_example :
    find? (λ c. c.session_id == "s1") (process_all_entries clock "now" entries)
    ≡ conversation_of clock "now" "s1"
        (process_summaries entries)
        (unless_empty (filter (is_of "s1") entries))
process_all_entries-session_example = process_all_entries-session clock "now" "s1" entries

-- A user message that lost its body.
abbrev broken : List SourcedEntry
broken = entry "user" "a" "s1" ∷ []

broken-HasDistinctIds : HasDistinctIds (messages_of_entries broken)
unfolding parse_message
broken-HasDistinctIds = (tt, tt)

broken_unreadable : all is_readable (messages_of_entries broken) ≡ false
unfolding parse_message
broken_unreadable = refl

build_conversation_chain_unreadable_example :
    build_conversation_chain clock "now" "s1" broken [] ≡ none
build_conversation_chain_unreadable_example =
    build_conversation_chain_unreadable clock "now" "s1" broken [] broken-HasDistinctIds
      broken_unreadable

abbrev shell : String
shell = "0123abcd-0000-0000-0000-000000000000"

abbrev disk : Disk
disk = record { files = shell ∷ "notes" ∷ []; deleted_sessions = [] }

abbrev base_name : String → String
base_name path = path

abbrev unlink : String → Bool
unlink path = true

cleanup_empty_shell_sessions-files_example :
    (cleanup_empty_shell_sessions base_name unlink ((shell, 1) ∷ ("notes", 2) ∷ []) [] disk).files
    ≡ filter
        (λ p. not (is_in p (shell ∷ "notes" ∷ []) && is_removable base_name unlink [] p))
        disk.files
cleanup_empty_shell_sessions-files_example =
    cleanup_empty_shell_sessions-files base_name unlink ((shell, 1) ∷ ("notes", 2) ∷ []) [] disk

shell_removed :
    (cleanup_empty_shell_sessions base_name unlink ((shell, 1) ∷ ("notes", 2) ∷ []) [] disk).files
    ≡ "notes" ∷ []
unfolding cleanup_empty_shell_sessions
shell_removed = refl
