-- ===== src/Server/Events.antt =====
-- The events of the child processes (web/cui/src/services/claude-process-manager.ts): what they do to
-- a pending start and, through the listeners of web/cui/src/cui-server.ts, to the server.
use Prim.Native.String.{◌++◌ as append}
use private_agent_platform.Base.{ℕ, String, Bool, [], ◌∷◌, ◌++◌, none, some, find?, eqb}
use private_agent_platform.JsMap
use private_agent_platform.JsMap.{JsMap}
use private_agent_platform.Types.{Fields}
use private_agent_platform.Status.{or_default}
use private_agent_platform.Process.{
  Config, init_timeout, kill_timeout, launch, abandon, handle_process_close, clear_timeout,
  stop_conversation, fire,
}
use private_agent_platform.Process.Init.{
  Outcome, initialised, rejected, Waiter, waiting, settled, InitEvent, message, stderr, closed,
  timed_out, listen,
}
use private_agent_platform.Server.{
  Server, forward_message, process_closed, process_error, register_init,
}

-- A wait that is over: its listeners and its timer go, and a good first message registers the session.
abbrev settle : String → String → String → ℕ → Outcome → Server → Server
settle now cwd streaming timer o s =
    let s' = record s {
      waits = JsMap.delete streaming s.waits;
      outcomes = s.outcomes ++ ((streaming, o) ∷ []);
      manager = clear_timeout timer s.manager;
    } in
    elim o [ initialised m ↦ register_init now cwd streaming m s' | rejected code errors ↦ s' ]

-- What a listener of the pending start leaves.
abbrev pub hear : String → String → String → ℕ → Waiter → Server → Server
hear now cwd streaming timer (waiting errors) s = record s {
  waits = JsMap.set streaming (timer, errors) s.waits;
}
hear now cwd streaming timer (settled o) s = settle now cwd streaming timer o s

-- The listeners of the pending start of the stream.
unfoldable pub notify_wait : String → String → String → InitEvent → Server → Server
unfolding listen clear_timeout register_init
notify_wait now cwd streaming e s = elim (JsMap.get streaming s.waits) [
  | none ↦ s
  | some (timer, errors) ↦ hear now cwd streaming timer (listen e (waiting errors)) s
]

-- `handleClaudeMessage`
unfoldable pub handle_claude_message : String → String → String → Fields → Server → Server
unfolding forward_message notify_wait
handle_claude_message now cwd streaming m s =
    notify_wait now cwd streaming (message m) (forward_message streaming m s)

-- `handleProcessError`, which a parser error and an error of the child process call.
unfoldable pub handle_process_error : String → String → String → String → Server → Server
unfolding process_error notify_wait
handle_process_error now cwd streaming text s =
    notify_wait now cwd streaming (stderr text) (process_error now streaming text s)

-- The handler of stderr.
unfoldable pub stderr_output : String → String → String → String → Server → Server
unfolding handle_process_error
stderr_output now cwd streaming text s =
    let buffer = or_default (JsMap.get streaming s.manager.output_buffers) "" in
    handle_process_error now cwd streaming text (record s {
      manager = record s.manager {
        output_buffers =
            JsMap.set streaming (append buffer (append "\n[STDERR]: " text))
              s.manager.output_buffers;
      };
    })

-- The handlers of `close` and of `exit`, both of which call `handleProcessClose`.
unfoldable pub child_exited : String → String → String → Server → Server
unfolding handle_process_close process_closed notify_wait
child_exited now cwd streaming s =
    notify_wait now cwd streaming closed (
      process_closed streaming
        (record s { manager = (handle_process_close streaming s.manager).0 }))

-- A start that spawned its child and waits.
unfoldable pub start : String → Config → ℕ → Server → Server
unfolding launch
start streaming config child s = record s {
  manager = launch streaming config child s.manager;
  waits = JsMap.set streaming (s.manager.next_timer, []) s.waits;
}

-- The `catch` of a start whose wait was rejected.
unfoldable pub fail_start : String → Server → Server
unfolding abandon
fail_start streaming s = record s { manager = abandon streaming s.manager }

unfoldable pub stop : Bool → String → Server → Server × Bool
unfolding stop_conversation
stop sent streaming s =
    let (manager, stopped) = stop_conversation sent streaming s.manager in
    (record s { manager = manager }, stopped)

-- A timer fires: one of the first kind ends the wait of its stream.
unfoldable pub fire_timer : String → String → Bool → ℕ → Server → Server
unfolding fire notify_wait
fire_timer now cwd sent id s =
    let s' = record s { manager = fire sent id s.manager } in
    elim (find? (λ t. eqb t.0 id) s.manager.armed) [
      | none ↦ s'
      | some (i, init_timeout streaming) ↦ notify_wait now cwd streaming timed_out s'
      | some (i, kill_timeout child) ↦ s'
    ]
