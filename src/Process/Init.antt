-- ===== src/Process/Init.antt =====
-- `waitForSystemInit` of claude-process-manager.ts: the wait for the first message of a stream. A
-- message is a JSON object. The text of an error is left out, but for what was read from stderr.
pub mod Decided
use private_agent_platform.Base.{
  ℕ, String, Bool, true, false, not, ◌&&◌, List, [], ◌∷◌, ◌++◌, Option, none, some, ◌==◌,
  if◌then◌else◌, filter, is_some, codes, starts_with,
}
use private_agent_platform.JsonLines.{is_empty}
use private_agent_platform.Types.{Json, str, Fields, lookup}

abbrev is_string : String → Option Json → Bool
is_string s (some (str t)) = t == s
is_string s _ = false

abbrev begins_with : String → Option Json → Bool
begins_with p (some (str t)) = starts_with (codes p) (codes t)
begins_with p _ = false

-- Messages of hooks are skipped.
unfoldable pub is_hook_message : Fields → Bool
unfolding lookup starts_with
is_hook_message m = is_string "system" (lookup "type" m) && begins_with "hook_" (lookup "subtype" m)

unfoldable pub is_init_message : Fields → Bool
unfolding lookup
is_init_message m = is_string "system" (lookup "type" m) && is_string "init" (lookup "subtype" m)

abbrev required_fields : List String
required_fields =
    "session_id" ∷ "cwd" ∷ "tools" ∷ "mcp_servers" ∷ "model" ∷ "permissionMode" ∷ "apiKeySource"
    ∷ []

unfoldable pub missing_fields : Fields → List String
unfolding lookup
missing_fields m = filter (λ field. not (is_some (lookup field m))) required_fields

-- What the wait ends with: the message, or the code of an error and what stderr gave so far.
pub data Outcome : Type 0 where
  initialised : Fields → Outcome
  rejected : String → List String → Outcome

pub data Waiter : Type 0 where
  waiting : List String → Waiter
  settled : Outcome → Waiter

-- The events of the stream that the wait listens to, and its timer.
pub data InitEvent : Type 0 where
  message : Fields → InitEvent
  stderr : String → InitEvent
  closed timed_out : InitEvent

-- The check of the first message that is not a hook's.
unfoldable pub check_message : Fields → List String → Outcome
unfolding is_init_message missing_fields
check_message m errors =
    if is_init_message m
    then if is_empty (missing_fields m)
      then initialised m
      else rejected "INCOMPLETE_SYSTEM_INIT" errors
    else rejected "INVALID_SYSTEM_INIT" errors

unfoldable pub listen : InitEvent → Waiter → Waiter
unfolding is_hook_message check_message
listen e (settled o) = settled o
listen (message m) (waiting errors) =
    if is_hook_message m then waiting errors else settled (check_message m errors)
listen (stderr text) (waiting errors) = waiting (errors ++ (text ∷ []))
listen closed (waiting errors) = settled (rejected "CLAUDE_PROCESS_EXITED_EARLY" errors)
listen timed_out (waiting errors) = settled (rejected "SYSTEM_INIT_TIMEOUT" errors)

unfoldable pub listen_all : List InitEvent → Waiter → Waiter
unfolding listen
listen_all [] w = w
listen_all (e ∷ es) w = listen_all es (listen e w)

unfoldable pub wait_for_system_init : List InitEvent → Waiter
unfolding listen_all
wait_for_system_init es = listen_all es (waiting [])
