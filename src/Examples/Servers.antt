-- ===== src/Examples/Servers.antt =====
-- Runs of Process.antt and of Server.antt.
use private_agent_platform.Base.{
  true, false, not, List, [], ◌∷◌, ◌++◌, none, some, ◌==◌, if◌then◌else◌, filter, find?, All, ◌≡◌,
  refl,
}
use mathlib.Core.Option
use private_agent_platform.JsMap
use private_agent_platform.JsMap.Index.{keep}
use private_agent_platform.Types.{str, Fields, field, end, null}
use private_agent_platform.Status.{get_session_id, get_streaming_id, get_conversation_context}
use private_agent_platform.Status.Bijection.{without}
use private_agent_platform.Permissions.{get_permission_request}
use private_agent_platform.Questions.{get_question}
use private_agent_platform.Streams.{broadcast}
use private_agent_platform.Streams.Laws.{clients_of}
use private_agent_platform.Process
use private_agent_platform.Process.{Config, Manager, sigterm, finish_stop, clear_timeout}
use private_agent_platform.Process.Init.{
  InitEvent, message, stderr, closed, wait_for_system_init, initialised,
}
use private_agent_platform.Process.Init.Decided.{
  is_noise, decided_by, texts_before, wait_for_system_init-decided,
}
use private_agent_platform.Process.Timers.{Forgets, IsCounted, tracks, finish_stop-cleared}
use private_agent_platform.Process.Steps.{act_all, launched, act_all-new-IsGentle}
use private_agent_platform.Server.{Server, new, error, session_id_of}
use private_agent_platform.Server.Events.{child_exited, stderr_output, handle_claude_message}
use private_agent_platform.Server.Closing.{IsSound, child_exited-lookup}
use private_agent_platform.Server.Twice.{child_exited_twice}
use private_agent_platform.Server.Errors.{with_text, stderr_output-unregisters}
use private_agent_platform.Server.Starts.{handle_claude_message-starts, stored}
use private_agent_platform.Server.Runs.{
  Reachable, begin, next, started, connected, requested, asked, messaged, perform,
}
use private_agent_platform.Server.Reached.{Reachable-IsSound}

abbrev config : Config
config = record {
  working_directory = "/work";
  initial_prompt = "hello";
  model = none;
  allowed_tools = none;
  disallowed_tools = none;
  system_prompt = none;
  claude_executable_path = none;
  previous_messages = none;
  permission_mode = none;
}

-- The first message of a child process.
abbrev init : Fields
init = field "type" (str "system") (
    field "subtype" (str "init") (
      field "session_id" (str "s1") (
        field "cwd" (str "/work") (
          field "tools" null (
            field "mcp_servers" null (
              field "model" (str "m") (
                field "permissionMode" (str "default")
                  (field "apiKeySource" (str "none") end))))))))

abbrev hook : Fields
hook = field "type" (str "system") (field "subtype" (str "hook_started") end)

abbrev events : List InitEvent
events = stderr "warning" ∷ message hook ∷ message init ∷ closed ∷ []

wait_for_system_init-decided_example :
    wait_for_system_init events
    ≡ decided_by (find? (λ e. not (is_noise e)) events) (texts_before events)
wait_for_system_init-decided_example = wait_for_system_init-decided events

-- A stopped stream with its timer, beside another.
abbrev running : Manager
running = act_all (launched "t1" config 7 ∷ launched "t2" config 8 ∷ []) Process.new

running-IsCounted : IsCounted running
running-IsCounted =
    (act_all-new-IsGentle (launched "t1" config 7 ∷ launched "t2" config 8 ∷ [])).counted

finish_stop-cleared_example :
    let m' = finish_stop true "t1" 7 running in
    Forgets "t1" running m'
    × (m'.armed ≡ filter (λ x. not (tracks "t1" running x.0)) running.armed)
    × (m'.signals
        ≡ (if running.killed 7 then running.signals else running.signals ++ ((7, sigterm) ∷ [])))
finish_stop-cleared_example = finish_stop-cleared true "t1" 7 running running-IsCounted

-- A client that waits for a stream, its start, and what the session asks.
abbrev s₀ : Server
s₀ = new (λ r. false)

abbrev s₁ : Server
s₁ = perform (connected "t1" 1) s₀

abbrev s₂ : Server
s₂ = perform (started "t1" config 7) s₁

abbrev s₃ : Server
s₃ = perform (messaged "now" "/" "t1" init) s₂

abbrev s₄ : Server
s₄ = perform (requested "p1" "now" false "Bash" null (some "t1")) s₃

abbrev s₅ : Server
s₅ = perform (asked "q1" "now" null "t1") s₄

reached₂ : Reachable s₂
unfolding new
reached₂ = next (started "t1" config 7) s₁ tt (next (connected "t1" 1) s₀ refl (begin (λ r. false)))

reached : Reachable s₅
unfolding session_id_of
reached = next (asked "q1" "now" null "t1") s₄ tt (
    next (requested "p1" "now" false "Bash" null (some "t1")) s₃ tt
      (next (messaged "now" "/" "t1" init) s₂ (refl, refl) reached₂))

Reachable-IsSound_example : IsSound s₅
Reachable-IsSound_example = Reachable-IsSound s₅ reached

sound : IsSound s₅
sound = Reachable-IsSound s₅ reached

child_exited-lookup_example :
    let s' = child_exited "now" "/" "t1" s₅ in
    Forgets "t1" s₅.manager s'.manager
    × (get_session_id "t1" s'.status
        ≡ (if "t1" == "t1" then none else get_session_id "t1" s₅.status))
    × (get_streaming_id "s1" s'.status ≡ without "t1" (get_streaming_id "s1" s₅.status))
    × (get_permission_request "p1" s'.permissions
        ≡ keep (λ r. not (r.streaming_id == "t1")) (get_permission_request "p1" s₅.permissions))
    × (get_question "p1" s'.questions
        ≡ keep (λ r. not (r.streaming_id == "t1")) (get_question "p1" s₅.questions))
    × (clients_of "t1" s'.streams ≡ (if "t1" == "t1" then [] else clients_of "t1" s₅.streams))
    × All (λ r. s'.streams.dead r ≡ true) (clients_of "t1" s₅.streams)
    × (JsMap.get "t1" s'.waits ≡ (if "t1" == "t1" then none else JsMap.get "t1" s₅.waits))
child_exited-lookup_example = child_exited-lookup "now" "/" "t1" s₅ sound "t1" "s1" "p1"

child_exited_twice_example :
    child_exited "now" "/" "t1" (child_exited "now" "/" "t1" s₅) ≡ child_exited "now" "/" "t1" s₅
child_exited_twice_example = child_exited_twice "now" "/" "t1" s₅ sound

stderr_output-unregisters_example :
    let s' = stderr_output "now" "/" "t1" "warning" s₅ in
    (s'.manager.processes ≡ s₅.manager.processes)
    × (s'.manager.armed ≡ s₅.manager.armed)
    × (get_session_id "t1" s'.status
        ≡ (if "t1" == "t1" then none else get_session_id "t1" s₅.status))
    × (get_streaming_id "s1" s'.status ≡ without "t1" (get_streaming_id "s1" s₅.status))
    × (s'.permissions ≡ s₅.permissions)
    × (s'.questions ≡ s₅.questions)
    × (s'.streams ≡ broadcast "t1" (error "warning" "t1" "now") s₅.streams)
    × (JsMap.get "t1" s'.waits ≡ (
        if "t1" == "t1"
        then Option.map (with_text "warning") (JsMap.get "t1" s₅.waits)
        else JsMap.get "t1" s₅.waits))
stderr_output-unregisters_example =
    stderr_output-unregisters "now" "/" "t1" "warning" s₅ sound.matched "t1" "s1"

abbrev sound₂ : IsSound s₂
sound₂ = Reachable-IsSound s₂ reached₂

handle_claude_message-starts_example :
    let s' = handle_claude_message "now" "/" "t1" init s₂ in
    (get_session_id "t1" s'.status ≡ some "s1")
    × (get_streaming_id "s1" s'.status ≡ some "t1")
    × (get_conversation_context "s1" s'.status ≡ some (stored "now" "/" config))
    × (s'.streams ≡ s₂.streams)
    × (JsMap.get "t1" s'.waits ≡ none)
    × (s'.outcomes ≡ s₂.outcomes ++ (("t1", initialised init) ∷ []))
    × (s'.manager ≡ clear_timeout 0 s₂.manager)
unfolding JsMap.get perform JsMap.set new
handle_claude_message-starts_example =
    handle_claude_message-starts "now" "/" "t1" "s1" init config 0 [] s₂ sound₂.matched waits
      configs refl refl refl refl
  where
    waits : JsMap.get "t1" s₂.waits ≡ some (0, [])
    waits = refl

    configs : JsMap.get "t1" s₂.manager.configs ≡ some config
    configs = refl
