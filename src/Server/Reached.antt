-- ===== src/Server/Reached.antt =====
-- The invariant of the server (web/cui/src/cui-server.ts and the services that it joins) over every
-- sequence of events.
use private_agent_platform.Base.{
  ℕ, String, Bool, true, false, Option, if◌then◌else◌, refl, Option-cases, inl, inr, find?, eqb,
}
use private_agent_platform.JsMap
use private_agent_platform.JsMap.{JsMap}
use private_agent_platform.Types.{Json}
use private_agent_platform.Status.Bijection.{new-IsMatched}
use private_agent_platform.Permissions.Decisions.{decision-IsTracked}
use private_agent_platform.Permissions.Cleanup.{add_permission_request-get}
use private_agent_platform.Questions.Tracked.{add_question-IsTracked, answer-IsTracked}
use private_agent_platform.Streams.{broadcast}
use private_agent_platform.Streams.Tidy.{add_client-IsTidy, remove_client-IsTidy}
use private_agent_platform.Streams.Closing.{broadcast-IsTidy}
use private_agent_platform.Process
use private_agent_platform.Process.{
  Config, Manager, stop_conversation, Timer, init_timeout, kill_timeout, fire, handle_process_close,
  clear_timeout, abandon,
}
use private_agent_platform.Process.Init.{message, stderr, closed, timed_out}
use private_agent_platform.Process.Steps.{
  launch-IsGentle, abandon-IsGentle, stop-IsGentle, fire-IsGentle,
}
use private_agent_platform.Server.{
  Server, StreamEvent, new, forward_permission, forward_question, request_permission, ask_question,
}
use private_agent_platform.Server.Events.{
  handle_claude_message, handle_process_error, stderr_output, child_exited, start, fail_start, stop,
  fire_timer,
}
use private_agent_platform.Server.Closing.{IsSound}
use private_agent_platform.Server.Invariant.{
  streams-IsSound, manager-IsSound, forward_message-IsSound, process_closed-IsSound,
  process_error-IsSound, notify_wait-IsSound,
}
use private_agent_platform.Server.Runs.{
  Step, messaged, wrote_stderr, erred, exited, started, start_failed, stopped, fired, requested,
  asked, decided, answered, connected, left, perform, IsAllowed, Reachable, begin, next,
}

broadcast_known-IsSound :
    (known : Bool) (t : String) (e : StreamEvent) (s : Server)
    → IsSound s
    → IsSound (if known then record s { streams = broadcast t e s.streams } else s)
broadcast_known-IsSound true t e s v = streams-IsSound s _ v (broadcast-IsTidy t e s.streams v.tidy)
broadcast_known-IsSound false t e s v = v

request_permission-IsSound :
    (id now : String) (ready : Bool) (tool : String) (input : Json) (t : Option String) (s : Server)
    → IsSound s
    → IsSound (request_permission id now ready tool input t s)
unfolding request_permission forward_permission
request_permission-IsSound id now ready tool input t s v = broadcast_known-IsSound _ _ _ _ (record {
  gentle = v.gentle;
  matched = v.matched;
  permitted =
      (add_permission_request-get id "" now ready s.status tool input t s.permissions
        v.permitted).0;
  asked = v.asked;
  tidy = v.tidy;
})

ask_question-IsSound :
    (id now : String) (questions : Json) (t : String) (s : Server)
    → IsSound s
    → IsSound (ask_question id now questions t s)
unfolding ask_question forward_question
ask_question-IsSound id now questions t s v = broadcast_known-IsSound _ _ _ _ (record {
  gentle = v.gentle;
  matched = v.matched;
  permitted = v.permitted;
  asked = add_question-IsTracked id now questions t s.questions v.asked;
  tidy = v.tidy;
})

start-IsSound :
    (t : String) (config : Config) (child : ℕ) (s : Server)
    → IsSound s
    → IsSound (start t config child s)
unfolding start
start-IsSound t config child s v = record {
  gentle = launch-IsGentle t config child s.manager v.gentle;
  matched = v.matched;
  permitted = v.permitted;
  asked = v.asked;
  tidy = v.tidy;
}

stop-IsSound : (sent : Bool) (t : String) (s : Server) → IsSound s → IsSound (stop sent t s).0
unfolding stop stop_conversation
stop-IsSound sent t s v = elim (Option-cases (JsMap.get t s.manager.processes)) [
  | inl e ↦ rw (e, stop_conversation) v
  | inr (child, e) ↦
      rw (e, stop_conversation)
        (manager-IsSound s _ v (stop-IsGentle sent t child s.manager v.gentle))
]

child_exited-IsSound :
    (now cwd t : String) (s : Server) → IsSound s → IsSound (child_exited now cwd t s)
unfolding child_exited handle_process_close abandon
child_exited-IsSound now cwd t s v =
    notify_wait-IsSound now cwd t closed _ tt
      (process_closed-IsSound t _ (manager-IsSound s _ v (abandon-IsGentle t s.manager v.gentle)))

handle_process_error-IsSound :
    (now cwd t text : String) (s : Server)
    → IsSound s
    → IsSound (handle_process_error now cwd t text s)
unfolding handle_process_error
handle_process_error-IsSound now cwd t text s v =
    notify_wait-IsSound now cwd t (stderr text) _ tt (process_error-IsSound now t text s v)

stderr_output-IsSound :
    (now cwd t text : String) (s : Server) → IsSound s → IsSound (stderr_output now cwd t text s)
unfolding stderr_output
stderr_output-IsSound now cwd t text s v = handle_process_error-IsSound now cwd t text _ (
    manager-IsSound s _ v
      (record { counted = v.gentle.counted; waits = v.gentle.waits; gentle = v.gentle.gentle }))

fire_timer-IsSound :
    (now cwd : String) (sent : Bool) (id : ℕ) (s : Server)
    → IsSound s
    → IsSound (fire_timer now cwd sent id s)
unfolding fire_timer
fire_timer-IsSound now cwd sent id s v =
    let v' =
      manager-IsSound s (fire sent id s.manager) v (fire-IsGentle sent id s.manager v.gentle) in
    elim (Option-cases (find? (λ t. eqb t.0 id) s.manager.armed)) [
      | inl e ↦ rw (e, fire_timer) v'
      | inr ((i, init_timeout t), e) ↦
          rw (e, fire_timer) (notify_wait-IsSound now cwd t timed_out _ tt v')
      | inr ((i, kill_timeout child), e) ↦ rw (e, fire_timer) v'
    ]

perform-IsSound : (e : Step) (s : Server) → IsAllowed e s → IsSound s → IsSound (perform e s)
unfolding perform handle_claude_message fail_start
perform-IsSound (messaged now cwd t m) s n v =
    notify_wait-IsSound now cwd t (message m) _ n (forward_message-IsSound t m s v)
perform-IsSound (wrote_stderr now cwd t text) s n v = stderr_output-IsSound now cwd t text s v
perform-IsSound (erred now cwd t text) s n v = handle_process_error-IsSound now cwd t text s v
perform-IsSound (exited now cwd t) s n v = child_exited-IsSound now cwd t s v
perform-IsSound (started t config child) s n v = start-IsSound t config child s v
perform-IsSound (start_failed t) s n v =
    manager-IsSound s _ v (abandon-IsGentle t s.manager v.gentle)
perform-IsSound (stopped sent t) s n v = stop-IsSound sent t s v
perform-IsSound (fired now cwd sent id) s n v = fire_timer-IsSound now cwd sent id s v
perform-IsSound (requested id now ready tool input t) s n v =
    request_permission-IsSound id now ready tool input t s v
perform-IsSound (asked id now questions t) s n v = ask_question-IsSound id now questions t s v
perform-IsSound (decided id action input reason) s n v = record {
  gentle = v.gentle;
  matched = v.matched;
  permitted = decision-IsTracked id action input reason s.permissions v.permitted;
  asked = v.asked;
  tidy = v.tidy;
}
perform-IsSound (answered id answers) s n v = record {
  gentle = v.gentle;
  matched = v.matched;
  permitted = v.permitted;
  asked = answer-IsTracked id answers s.questions v.asked;
  tidy = v.tidy;
}
perform-IsSound (connected t r) s n v =
    streams-IsSound s _ v (add_client-IsTidy t r s.streams n v.tidy).0
perform-IsSound (left t r) s n v = streams-IsSound s _ v (remove_client-IsTidy t r s.streams v.tidy)

new-IsSound : (dead : ℕ → Bool) → IsSound (new dead)
unfolding new Process.new
new-IsSound dead = record {
  gentle = record { counted = tt; waits = tt; gentle = tt };
  matched = new-IsMatched;
  permitted = record { indexed = tt; distinct = tt };
  asked = record { indexed = tt; distinct = tt };
  tidy = record { distinct = tt; busy = tt; beating = refl };
}

-- In every state that the server reaches, from no sessions, by messages, output, ends, starts and
-- stops of child processes, timers, permission requests and questions with their answers, and clients
-- that connect alive or leave: the maps of streams and sessions are inverse to one another, both
-- trackers are indexed by their ids, exactly the streams with clients are kept and the heartbeat runs
-- just when there are any, and no SIGKILL was sent. A message is on a named stream and has no empty
-- session id.
pub Reachable-IsSound : (s : Server) → Reachable s → IsSound s
Reachable-IsSound s r = elim r as (λ s _. IsSound s) [
  | begin dead ↦ new-IsSound dead
  | next e s' n (q → v) ↦ perform-IsSound e s' n v
]
