-- ===== src/Server/Runs.antt =====
-- The events of the server (web/cui/src/cui-server.ts and the services that it joins), and the states
-- that it reaches.
use private_agent_platform.Base.{ℕ, String, Bool, true, false, Option, none, some, ◌≡◌, is_truthy}
use private_agent_platform.Types.{Json, Fields}
use private_agent_platform.Permissions.Routes.{decision}
use private_agent_platform.Questions.Routes.{answer}
use private_agent_platform.Streams.{add_client, remove_client}
use private_agent_platform.Process.{Config}
use private_agent_platform.Server.{Server, new, session_id_of, request_permission, ask_question}
use private_agent_platform.Server.Events.{
  handle_claude_message, handle_process_error, stderr_output, child_exited, start, fail_start, stop,
  fire_timer,
}

-- The events, from the child processes, the timers, the routes and the clients.
pub data Step : Type 0 where
  messaged : String → String → String → Fields → Step
  wrote_stderr : String → String → String → String → Step
  erred : String → String → String → String → Step
  exited : String → String → String → Step
  started : String → Config → ℕ → Step
  start_failed : String → Step
  stopped : Bool → String → Step
  fired : String → String → Bool → ℕ → Step
  requested : String → String → Bool → String → Json → Option String → Step
  asked : String → String → Json → String → Step
  decided : String → Option String → Option Json → Option String → Step
  answered : String → Json → Step
  connected : String → ℕ → Step
  left : String → ℕ → Step

unfoldable pub perform : Step → Server → Server
unfolding handle_claude_message stderr_output handle_process_error child_exited start fail_start
    stop fire_timer request_permission ask_question decision answer
perform (messaged now cwd t m) s = handle_claude_message now cwd t m s
perform (wrote_stderr now cwd t text) s = stderr_output now cwd t text s
perform (erred now cwd t text) s = handle_process_error now cwd t text s
perform (exited now cwd t) s = child_exited now cwd t s
perform (started t config child) s = start t config child s
perform (start_failed t) s = fail_start t s
perform (stopped sent t) s = (stop sent t s).0
perform (fired now cwd sent id) s = fire_timer now cwd sent id s
perform (requested id now ready tool input t) s = request_permission id now ready tool input t s
perform (asked id now questions t) s = ask_question id now questions t s
perform (decided id action input reason) s = record s {
  permissions = (decision id action input reason s.permissions).0;
}
perform (answered id answers) s = record s { questions = (answer id answers s.questions).0 }
perform (connected t r) s = record s { streams = (add_client t r s.streams).0 }
perform (left t r) s = record s { streams = remove_client t r s.streams }

abbrev pub is_named : Option String → Bool
is_named none = true
is_named (some c) = is_truthy c

-- A message has no empty session id and stands on a named stream; a client connects alive.
abbrev pub IsAllowed : Step → Server → Type 0
IsAllowed (messaged now cwd t m) s = (is_truthy t ≡ true) × (is_named (session_id_of m) ≡ true)
IsAllowed (connected t r) s = s.streams.dead r ≡ false
IsAllowed _ s = Unit

-- The states that the server reaches.
pub data Reachable : Server → Type 0 where
  begin : (dead : ℕ → Bool) → Reachable (new dead)
  next : (e : Step) (s : Server) → IsAllowed e s → Reachable s → Reachable (perform e s)
