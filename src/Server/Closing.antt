-- ===== src/Server/Closing.antt =====
-- What the end of a child process leaves of its stream, in every component that
-- web/cui/src/cui-server.ts joins.
use private_agent_platform.Base.{
  String, true, not, [], none, ◌==◌, if◌then◌else◌, eq_iff, ◌≡◌, refl, ◌∙◌, ap, arith, All,
  Option-cases, inl, inr,
}
use private_agent_platform.JsMap
use private_agent_platform.JsMap.{JsMap}
use private_agent_platform.JsMap.Index.{keep}
use private_agent_platform.JsMap.Laws.{get-delete}
use private_agent_platform.Status.{get_streaming_id, get_session_id}
use private_agent_platform.Status.Bijection.{IsMatched, without}
use private_agent_platform.Status.Mappings.{unregister_active_session-lookup}
use private_agent_platform.Permissions
use private_agent_platform.Permissions.{get_permission_request, remove_permissions_by_streaming_id}
use private_agent_platform.Permissions.Decisions
use private_agent_platform.Permissions.Cleanup.{remove_permissions-get}
use private_agent_platform.Questions
use private_agent_platform.Questions.{get_question, remove_questions_by_streaming_id}
use private_agent_platform.Questions.Answers
use private_agent_platform.Questions.Answers.{remove_questions-get}
use private_agent_platform.Streams.Laws.{clients_of}
use private_agent_platform.Streams.Tidy.{IsTidy}
use private_agent_platform.Streams.Closing.{close_session-ends}
use private_agent_platform.Process.{Manager, clear_timeout, handle_process_close, abandon}
use private_agent_platform.Process.Init.{closed, listen}
use private_agent_platform.Process.Timers.{Forgets, abandon-Forgets}
use private_agent_platform.Process.Steps.{IsGentle}
use private_agent_platform.Server.{Server, process_closed}
use private_agent_platform.Server.Events.{notify_wait, child_exited}

-- Each component is well formed.
pub record IsSound (s : Server) : Type 0 where
  pub gentle : IsGentle s.manager
  pub matched : IsMatched s.status
  pub permitted : Permissions.Decisions.IsTracked s.permissions
  pub asked : Questions.Answers.IsTracked s.questions
  pub tidy : IsTidy s.streams

abbrev SameMaps : Manager → Manager → Type 0
SameMaps m m' =
    (m'.processes ≡ m.processes)
    × (m'.output_buffers ≡ m.output_buffers)
    × (m'.timeouts ≡ m.timeouts)
    × (m'.configs ≡ m.configs)

Forgets-same : (t : String) (m m₁ m₂ : Manager) → Forgets t m m₁ → SameMaps m₁ m₂ → Forgets t m m₂
Forgets-same t m m₁ m₂ f e j = (rw e.0 (f j).0, rw e.1 (f j).1, rw e.2 (f j).2, rw e.3 (f j).3)

-- What the end of a process is to a pending start.
pub closed_wait :
    (now cwd t : String) (s : Server)
    → let s' = notify_wait now cwd t closed s in
      (s'.status ≡ s.status)
      × (s'.permissions ≡ s.permissions)
      × (s'.questions ≡ s.questions)
      × (s'.streams ≡ s.streams)
      × SameMaps s.manager s'.manager
      × ((j : String) → JsMap.get j s'.waits ≡ (if t == j then none else JsMap.get j s.waits))
unfolding notify_wait listen clear_timeout
closed_wait now cwd t s = elim (Option-cases (JsMap.get t s.waits)) [
  | inl e ↦
      rw (e, notify_wait)
        (refl, refl, refl, refl, (refl, refl, refl, refl), λ j. ground (arith, eq_iff t j))
  | inr (w, e) ↦
      rw (e, notify_wait)
        (refl, refl, refl, refl, (refl, refl, refl, refl), λ j. get-delete t j s.waits)
]

-- When the child process of a stream ends, nothing of the stream is left: the manager forgets it, its
-- session is no longer active, its permission requests and questions go, each of its clients is
-- removed and ended, and no start waits for it. What the components hold for other streams stays.
pub child_exited-lookup :
    (now cwd streaming : String) (s : Server)
    → IsSound s
    → (j c id : String)
    → let s' = child_exited now cwd streaming s in
      Forgets streaming s.manager s'.manager
      × (get_session_id j s'.status ≡ (if streaming == j then none else get_session_id j s.status))
      × (get_streaming_id c s'.status ≡ without streaming (get_streaming_id c s.status))
      × (get_permission_request id s'.permissions
          ≡ keep (λ r. not (r.streaming_id == streaming)) (get_permission_request id s.permissions))
      × (get_question id s'.questions
          ≡ keep (λ r. not (r.streaming_id == streaming)) (get_question id s.questions))
      × (clients_of j s'.streams ≡ (if streaming == j then [] else clients_of j s.streams))
      × All (λ r. s'.streams.dead r ≡ true) (clients_of streaming s.streams)
      × (JsMap.get j s'.waits ≡ (if streaming == j then none else JsMap.get j s.waits))
unfolding child_exited process_closed handle_process_close abandon
child_exited-lookup now cwd t s v j c id =
    let s₁ = process_closed t (record s { manager = (handle_process_close t s.manager).0 }) in
    let w = closed_wait now cwd t s₁ in
    let status = unregister_active_session-lookup t s.status v.matched c j in
    let streams = close_session-ends t j s.streams v.tidy in
    (
      Forgets-same t s.manager s₁.manager (child_exited now cwd t s).manager
          (abandon-Forgets t s.manager) w.4,
      ap (get_session_id j) w.0 ∙ status.1,
      ap (get_streaming_id c) w.0 ∙ status.0,
      ap (get_permission_request id) w.1
          ∙ (remove_permissions-get t id s.permissions v.permitted).1,
      ap (get_question id) w.2 ∙ (remove_questions-get t id s.questions v.asked).1,
      ap (clients_of j) w.3 ∙ streams.1,
      rw w.3 streams.2,
      w.5 j,
    )
