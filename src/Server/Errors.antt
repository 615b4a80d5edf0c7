-- ===== src/Server/Errors.antt =====
-- What output on stderr does to the server (web/cui/src/services/claude-process-manager.ts,
-- web/cui/src/cui-server.ts).
use private_agent_platform.Base.{
  ℕ, String, List, [], ◌∷◌, ◌++◌, none, ◌==◌, if◌then◌else◌, ◌≡◌, refl, ◌∙◌, ap, arith,
  Option-cases, inl, inr, eq_iff,
}
use mathlib.Core.Option
use private_agent_platform.JsMap
use private_agent_platform.JsMap.{JsMap}
use private_agent_platform.JsMap.Laws.{get-set}
use private_agent_platform.Status.{get_streaming_id, get_session_id}
use private_agent_platform.Status.Bijection.{IsMatched, without}
use private_agent_platform.Status.Mappings.{unregister_active_session-lookup}
use private_agent_platform.Streams.{broadcast}
use private_agent_platform.Process.Init.{stderr, listen}
use private_agent_platform.Server.{Server, process_error, error}
use private_agent_platform.Server.Events.{notify_wait, handle_process_error, stderr_output}

-- A pending start remembers the text.
abbrev pub with_text : String → ℕ × List String → ℕ × List String
with_text text w = (w.0, w.1 ++ (text ∷ []))

heard_text :
    (now cwd t text : String) (s : Server)
    → let s' = notify_wait now cwd t (stderr text) s in
      (s'.manager ≡ s.manager)
      × (s'.status ≡ s.status)
      × (s'.permissions ≡ s.permissions)
      × (s'.questions ≡ s.questions)
      × (s'.streams ≡ s.streams)
      × (s'.outcomes ≡ s.outcomes)
      × ((j : String)
          → JsMap.get j s'.waits ≡ (
              if t == j
              then Option.map (with_text text) (JsMap.get j s.waits)
              else JsMap.get j s.waits))
unfolding notify_wait listen
heard_text now cwd t text s = elim (Option-cases (JsMap.get t s.waits)) [
  | inl e ↦
      rw (e, notify_wait) (refl, refl, refl, refl, refl, refl, λ j. ground (arith, eq_iff t j))
  | inr (w, e) ↦
      rw (e, notify_wait)
        (
          refl,
          refl,
          refl,
          refl,
          refl,
          refl,
          λ j. get-set t j _ s.waits ∙ ground (arith, eq_iff t j, e),
        )
]

-- Whatever a child process writes to stderr, its session is no longer active afterwards, although the
-- manager still runs the child: its processes, its timers and the trackers stay, the clients of the
-- stream get the text as an error, and a pending start goes on waiting and remembers the text.
pub stderr_output-unregisters :
    (now cwd streaming text : String) (s : Server)
    → IsMatched s.status
    → (j c : String)
    → let s' = stderr_output now cwd streaming text s in
      (s'.manager.processes ≡ s.manager.processes)
      × (s'.manager.armed ≡ s.manager.armed)
      × (get_session_id j s'.status ≡ (if streaming == j then none else get_session_id j s.status))
      × (get_streaming_id c s'.status ≡ without streaming (get_streaming_id c s.status))
      × (s'.permissions ≡ s.permissions)
      × (s'.questions ≡ s.questions)
      × (s'.streams ≡ broadcast streaming (error text streaming now) s.streams)
      × (JsMap.get j s'.waits ≡ (
          if streaming == j
          then Option.map (with_text text) (JsMap.get j s.waits)
          else JsMap.get j s.waits))
unfolding stderr_output handle_process_error process_error
stderr_output-unregisters now cwd t text s v j c =
    let w = heard_text now cwd t text _ in
    let status = unregister_active_session-lookup t s.status v c j in
    (
      ap (λ m. m.processes) w.0,
      ap (λ m. m.armed) w.0,
      ap (get_session_id j) w.1 ∙ status.1,
      ap (get_streaming_id c) w.1 ∙ status.0,
      w.2,
      w.3,
      w.4,
      w.6 j,
    )
