-- ===== src/Server/Twice.antt =====
-- The end of a child process is announced twice, by `exit` and by `close`: see child_exited.
use private_agent_platform.Base.{String, none, ◌≡◌, ◌∙◌, ap, eq_refl}
use private_agent_platform.JsMap
use private_agent_platform.JsMap.Laws.{delete_absent}
use private_agent_platform.Status.{unregister_active_session}
use private_agent_platform.Status.Sessions.{unregister_again}
use private_agent_platform.Permissions.{remove_permissions_by_streaming_id}
use private_agent_platform.Permissions.Cleanup.{remove_permissions_again}
use private_agent_platform.Questions.{remove_questions_by_streaming_id}
use private_agent_platform.Questions.Answers.{remove_questions_again}
use private_agent_platform.Streams.{close_session}
use private_agent_platform.Streams.Closing.{close_session_again}
use private_agent_platform.Process.{Manager, handle_process_close, forget, clear_timeouts}
use private_agent_platform.Process.Init.{closed}
use private_agent_platform.Process.Timers.{Forgets}
use private_agent_platform.Server.{Server, process_closed}
use private_agent_platform.Server.Events.{notify_wait, child_exited}
use private_agent_platform.Server.Closing.{IsSound, closed_wait, child_exited-lookup}

cleared_already :
    (t : String) (m : Manager) → JsMap.get t m.timeouts ≡ none → clear_timeouts t m ≡ m
unfolding clear_timeouts
cleared_already t m e = rw (e, clear_timeouts)

forgotten_already :
    (t : String) (m : Manager)
    → JsMap.get t m.processes ≡ none
    → JsMap.get t m.output_buffers ≡ none
    → JsMap.get t m.configs ≡ none
    → forget t m ≡ m
unfolding forget
forgotten_already t m p b c =
    rw (
      delete_absent t m.processes p,
      delete_absent t m.output_buffers b,
      delete_absent t m.configs c,
    )

-- A manager that knows nothing of the stream.
manager_again : (t : String) (m m' : Manager) → Forgets t m m' → (handle_process_close t m').0 ≡ m'
unfolding handle_process_close
manager_again t m m' f =
    let g = f t in
    ap (forget t) (cleared_already t m' (g.2 ∙ rw (eq_refl t)))
    ∙ forgotten_already t m' (g.0 ∙ rw (eq_refl t)) (g.1 ∙ rw (eq_refl t)) (g.3 ∙ rw (eq_refl t))

unheard :
    (now cwd t : String) (s : Server)
    → JsMap.get t s.waits ≡ none
    → notify_wait now cwd t closed s ≡ s
unfolding notify_wait
unheard now cwd t s e = rw (e, notify_wait)

closed_already :
    (t : String) (s : Server)
    → (handle_process_close t s.manager).0 ≡ s.manager
    → (unregister_active_session t s.status).0 ≡ s.status
    → (remove_permissions_by_streaming_id t s.permissions).0 ≡ s.permissions
    → (remove_questions_by_streaming_id t s.questions).0 ≡ s.questions
    → close_session t s.streams ≡ s.streams
    → process_closed t (record s { manager = (handle_process_close t s.manager).0 }) ≡ s
unfolding process_closed
closed_already t s m u p q c = rw (m, u, p, q, c)

-- The second announcement of the end of a child process changes nothing, in any component.
pub child_exited_twice :
    (now cwd streaming : String) (s : Server)
    → IsSound s
    → child_exited now cwd streaming (child_exited now cwd streaming s)
      ≡ child_exited now cwd streaming s
unfolding child_exited process_closed
child_exited_twice now cwd t s v =
    let s₁ = process_closed t (record s { manager = (handle_process_close t s.manager).0 }) in
    let s' = child_exited now cwd t s in
    let w = closed_wait now cwd t s₁ in
    let gone = child_exited-lookup now cwd t s v t "" "" in
    unheard now cwd t
      (process_closed t (record s' { manager = (handle_process_close t s'.manager).0 }))
      (gone.7 ∙ rw (eq_refl t))
    ∙ closed_already t s' (manager_again t s.manager s'.manager gone.0)
        (rw w.0 (unregister_again t s.status v.matched))
        (rw w.1 (remove_permissions_again t s.permissions v.permitted))
        (rw w.2 (remove_questions_again t s.questions v.asked))
        (rw w.3 (close_session_again t s.streams))
