-- ===== src/Conversations.antt =====
-- web/cui/src/routes/conversation.routes.ts: `POST /start`, which starts a conversation or resumes one.
-- The handler is cut in two at its wait for the process manager. The previous messages, which
-- History/Fetch reads, are an argument: none where the reading throws.
pub mod Sessions
pub mod Resumed
pub mod Changes
use private_agent_platform.Base.{
  ℕ, String, Bool, true, false, List, [], ◌∷◌, Option, none, some, ◌==◌, if◌then◌else◌, is_truthy,
  any, not, ◌&&◌,
}
use private_agent_platform.JsonLines.{is_empty}
use private_agent_platform.Types.{ConversationMessage}
use private_agent_platform.Status.{Status, register_active_session}
use private_agent_platform.Process.{Config}
use private_agent_platform.SessionInfo.Table.{Database}
use private_agent_platform.SessionInfo.{Updates, no_updates, get_session_info, update_session_info}

pub record StartRequest : Type 0 where
  pub working_directory : Option String
  pub initial_prompt : Option String
  pub model : Option String
  pub allowed_tools : Option (List String)
  pub disallowed_tools : Option (List String)
  pub system_prompt : Option String
  pub permission_mode : Option String
  pub resumed_session_id : Option String

-- The fields of the init message that the handler uses.
pub record SystemInit : Type 0 where
  pub session_id : String
  pub cwd : String
  pub model : String

-- The value of a field that is truthy.
abbrev pub given : Option String → Option String
given none = none
given (some s) = if is_truthy s then some s else none

abbrev valid_modes : List String
valid_modes = "acceptEdits" ∷ "bypassPermissions" ∷ "default" ∷ "plan" ∷ []

abbrev pub is_valid_mode : Option String → Bool
is_valid_mode none = true
is_valid_mode (some m) = any (λ v. v == m) valid_modes

-- A validated request, or the code of an error with its status.
pub data Validated : Type 0 where
  valid : String → String → Validated
  invalid : String → ℕ → Validated

unfoldable pub validate : StartRequest → Validated
validate r = elim (given r.working_directory) [
  | none ↦ invalid "MISSING_WORKING_DIRECTORY" 400
  | some directory ↦ elim (given r.initial_prompt) [
    | none ↦ invalid "MISSING_INITIAL_PROMPT" 400
    | some prompt ↦
        if is_valid_mode (given r.permission_mode)
        then valid directory prompt
        else invalid "INVALID_PERMISSION_MODE" 400
  ]
]

abbrev messages_of : Option (List ConversationMessage) → List ConversationMessage
messages_of none = []
messages_of (some ms) = ms

-- The previous messages of a resumed session.
abbrev previous :
    (String → Option (List ConversationMessage)) → StartRequest → List ConversationMessage
previous fetch r = elim (given r.resumed_session_id) [
  | none ↦ []
  | some id ↦ messages_of (fetch id)
]

abbrev pub unless_empty : List ConversationMessage → Option (List ConversationMessage)
unless_empty ms = if is_empty ms then none else some ms

module _ {D : Type 0} (db : Database D) where
  -- The permission mode of the request, or that of the session that it resumes.
  unfoldable pub resolve_mode : String → StartRequest → D → D × Option String
  unfolding get_session_info
  resolve_mode now r d = elim (given r.permission_mode) [
    | some m ↦ (d, some m)
    | none ↦ elim (given r.resumed_session_id) [
      | none ↦ (d, none)
      | some id ↦ let (d', info) = get_session_info db now id d in (d', some info.permission_mode)
    ]
  ]

  -- The part before the start: the configuration that it is started with.
  unfoldable pub prepare_start :
      String
      → (String → Option (List ConversationMessage))
      → String
      → String
      → StartRequest
      → D
      → D × Config
  unfolding resolve_mode
  prepare_start now fetch directory prompt r d =
      let (d', mode) = resolve_mode now r d in
      (
        d',
        record {
          working_directory = directory;
          initial_prompt = prompt;
          model = r.model;
          allowed_tools = r.allowed_tools;
          disallowed_tools = r.disallowed_tools;
          system_prompt = r.system_prompt;
          claude_executable_path = none;
          previous_messages = unless_empty (previous fetch r);
          permission_mode = mode;
        },
      )

  -- An update whose failure is logged and passed over.
  abbrev pub try_update : String → String → Updates → D → D
  try_update now id u d = elim (update_session_info db now id u d) [ none ↦ d | some x ↦ x.0 ]

  unfoldable pub store_continuation : String → SystemInit → StartRequest → D → D
  unfolding update_session_info
  store_continuation now init r d = elim (given r.resumed_session_id) [
    | none ↦ d
    | some id ↦
        try_update now id (record no_updates { continuation_session_id = some init.session_id }) d
  ]

  unfoldable pub store_mode : String → SystemInit → Config → D → D
  unfolding update_session_info
  store_mode now init config d = elim (given config.permission_mode) [
    | none ↦ d
    | some m ↦ try_update now init.session_id (record no_updates { permission_mode = some m }) d
  ]

  unfoldable pub register_resumed :
      String → String → SystemInit → Config → StartRequest → Status → Status
  unfolding register_active_session
  register_resumed now streaming init config r status = elim (given r.resumed_session_id) [
    | none ↦ status
    | some id ↦
        (register_active_session now streaming init.session_id
          (some (record {
            initial_prompt = config.initial_prompt;
            working_directory = init.cwd;
            model = some init.model;
            inherited_messages = config.previous_messages;
          }))
          status).0
  ]

  -- The part after the start.
  unfoldable pub finish_start :
      String → String → SystemInit → Config → StartRequest → D × Status → D × Status
  unfolding store_continuation register_resumed store_mode
  finish_start now streaming init config r (d, status) = (
    store_mode now init config (store_continuation now init r d),
    register_resumed now streaming init config r status,
  )
