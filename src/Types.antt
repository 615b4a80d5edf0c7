-- ===== src/Types.antt =====
-- web/cui/src/types/index.ts: the message types that the services share, with the shapes of the
-- Anthropic message that the services look at, and the values that JSON stands for.
use private_agent_platform.Base.{ℕ, String, Bool, List, Option, none, some, ◌==◌, if◌then◌else◌}

-- A parsed JSON value. A number is kept only as far as the services use it.
mutual
  pub data Json : Type 0 where
    null : Json
    bool : Bool → Json
    num : ℕ → Json
    str : String → Json
    arr : Items → Json
    obj : Fields → Json

  pub data Items : Type 0 where
    nil : Items
    cons : Json → Items → Items

  pub data Fields : Type 0 where
    end : Fields
    field : String → Json → Fields → Fields

-- The field of an object, and that of any value: only objects have fields.
unfoldable pub lookup : String → Fields → Option Json
lookup k end = none
lookup k (field j v fs) = if j == k then some v else lookup k fs

pub get_field : String → Json → Option Json
unfolding lookup
get_field k (obj fs) = lookup k fs
get_field k _ = none

-- A content block, by its `type`. The text of a text block may be absent; a tool use has an id, a
-- name and an input object.
pub data Block : Type 0 where
  text_block : Option String → Block
  tool_use : String → String → Fields → Block
  other_block : String → Block

-- `no_content`: the field is absent, or neither a string nor an array.
pub data Content : Type 0 where
  no_content : Content
  text : String → Content
  blocks : List Block → Content

pub record MessageObject : Type 0 where
  pub role : String
  pub content : Content
  pub model : Option String

-- The field `message`: the history file may lack it, or hold a bare string.
pub data Body : Type 0 where
  missing : Body
  plain : String → Body
  object : MessageObject → Body

pub data MessageType : Type 0 where
  user assistant system : MessageType

pub record ConversationMessage : Type 0 where
  pub uuid : String
  pub type : MessageType
  pub message : Body
  pub timestamp : String
  pub session_id : String
  pub parent_uuid : Option String
  pub is_sidechain : Option Bool
  pub user_type : Option String
  pub cwd : Option String
  pub version : Option String
  pub duration_ms : Option ℕ

pub record SessionInfo : Type 0 where
  pub custom_name : String
  pub created_at : String
  pub updated_at : String
  pub version : ℕ
  pub pinned : Bool
  pub archived : Bool
  pub continuation_session_id : String
  pub initial_commit_head : String
  pub permission_mode : String
  pub session_type : String

pub data ConversationStatus : Type 0 where
  completed ongoing pending : ConversationStatus

pub record ToolMetrics : Type 0 where
  pub lines_added : ℕ
  pub lines_removed : ℕ
  pub edit_count : ℕ
  pub write_count : ℕ

pub record ConversationSummary : Type 0 where
  pub session_id : String
  pub project_path : String
  pub summary : String
  pub session_info : SessionInfo
  pub created_at : String
  pub updated_at : String
  pub message_count : ℕ
  pub total_duration : ℕ
  pub model : String
  pub status : ConversationStatus
  pub streaming_id : Option String
  pub tool_metrics : Option ToolMetrics

pub record ConversationDetails : Type 0 where
  pub messages : List ConversationMessage
  pub summary : String
  pub project_path : String
  pub total_duration : ℕ
  pub model : String
