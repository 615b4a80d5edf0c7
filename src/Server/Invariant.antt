-- ===== src/Server/Invariant.antt =====
-- The listeners of web/cui/src/cui-server.ts and of a pending start keep the server well formed.
use private_agent_platform.Base.{
  ℕ, String, true, List, ◌≡◌, Bool-cases, Option-cases, inl, inr, is_truthy,
}
use private_agent_platform.JsMap
use private_agent_platform.JsMap.{JsMap}
use private_agent_platform.JsonLines.{is_empty}
use private_agent_platform.Types.{Fields}
use private_agent_platform.Status.Mappings.{register_active_session-IsMatched}
use private_agent_platform.Status.Sessions.{unregister-IsMatched}
use private_agent_platform.Permissions.Cleanup.{remove_permissions-get}
use private_agent_platform.Questions.Answers.{remove_questions-get}
use private_agent_platform.Streams.{Streams}
use private_agent_platform.Streams.Tidy.{IsTidy}
use private_agent_platform.Streams.Closing.{broadcast-IsTidy, close_session-IsTidy}
use private_agent_platform.Process.{Manager}
use private_agent_platform.Process.Init.{
  InitEvent, message, stderr, closed, timed_out, Waiter, is_hook_message, missing_fields,
  check_message, listen, waiting, settled, initialised, rejected, Outcome, is_init_message,
}
use private_agent_platform.Process.Steps.{IsGentle, clear_timeout-IsGentle}
use private_agent_platform.Server.{
  Server, StreamEvent, forward_message, process_closed, process_error, session_id_of, register_init,
}
use private_agent_platform.Server.Events.{hear, notify_wait}
use private_agent_platform.Server.Closing.{IsSound}
use private_agent_platform.Server.Runs.{is_named}

pub streams-IsSound :
    (s : Server) (streams : Streams StreamEvent)
    → IsSound s
    → IsTidy streams
    → IsSound (record s { streams = streams })
streams-IsSound s streams v t = record {
  gentle = v.gentle;
  matched = v.matched;
  permitted = v.permitted;
  asked = v.asked;
  tidy = t;
}

pub manager-IsSound :
    (s : Server) (manager : Manager)
    → IsSound s
    → IsGentle manager
    → IsSound (record s { manager = manager })
manager-IsSound s manager v g = record {
  gentle = g;
  matched = v.matched;
  permitted = v.permitted;
  asked = v.asked;
  tidy = v.tidy;
}

pub forward_message-IsSound :
    (t : String) (m : Fields) (s : Server) → IsSound s → IsSound (forward_message t m s)
unfolding forward_message
forward_message-IsSound t m s v = elim (Bool-cases (is_init_message m)) [
  | inl e ↦ rw (e, forward_message) v
  | inr e ↦ rw (e, forward_message) (streams-IsSound s _ v (broadcast-IsTidy t _ s.streams v.tidy))
]

pub process_closed-IsSound : (t : String) (s : Server) → IsSound s → IsSound (process_closed t s)
unfolding process_closed
process_closed-IsSound t s v = record {
  gentle = v.gentle;
  matched = unregister-IsMatched t s.status v.matched;
  permitted = (remove_permissions-get t "" s.permissions v.permitted).0;
  asked = (remove_questions-get t "" s.questions v.asked).0;
  tidy = close_session-IsTidy t s.streams v.tidy;
}

pub process_error-IsSound :
    (now t text : String) (s : Server) → IsSound s → IsSound (process_error now t text s)
unfolding process_error
process_error-IsSound now t text s v = record {
  gentle = v.gentle;
  matched = unregister-IsMatched t s.status v.matched;
  permitted = v.permitted;
  asked = v.asked;
  tidy = broadcast-IsTidy t _ s.streams v.tidy;
}

register_init-IsSound :
    (now cwd t : String) (m : Fields) (s : Server)
    → is_truthy t ≡ true
    → is_named (session_id_of m) ≡ true
    → IsSound s
    → IsSound (register_init now cwd t m s)
unfolding register_init
register_init-IsSound now cwd t m s ht h v = elim (Option-cases (session_id_of m)) [
  | inl e ↦ rw (e, register_init) v
  | inr (c, e) ↦
      let hc : is_truthy c ≡ true = rw e at h in
      rw (e, register_init)
        (record {
          gentle = v.gentle;
          matched = register_active_session-IsMatched now t c _ s.status ht hc v.matched;
          permitted = v.permitted;
          asked = v.asked;
          tidy = v.tidy;
        })
]

-- What the listeners of a pending start may be told.
abbrev pub IsNamed : String → InitEvent → Type 0
IsNamed t (message m) = (is_truthy t ≡ true) × (is_named (session_id_of m) ≡ true)
IsNamed t _ = Unit

waits-IsSound :
    (s : Server) (waits : JsMap (ℕ × List String)) (outcomes : List (String × Outcome))
    (manager : Manager)
    → IsSound s
    → IsGentle manager
    → IsSound (record s { waits = waits; outcomes = outcomes; manager = manager })
waits-IsSound s waits outcomes manager v g = record {
  gentle = g;
  matched = v.matched;
  permitted = v.permitted;
  asked = v.asked;
  tidy = v.tidy;
}

-- What the wait may come to.
abbrev IsFit : String → Waiter → Type 0
IsFit t (settled (initialised m)) = IsNamed t (message m)
IsFit t _ = Unit

check-IsFit :
    (t : String) (m : Fields) (errors : List String)
    → IsNamed t (message m)
    → IsFit t (settled (check_message m errors))
unfolding check_message
check-IsFit t m errors n = elim (Bool-cases (is_init_message m)) [
  | inr e ↦ rw (e, check_message) tt
  | inl e ↦ elim (Bool-cases (is_empty (missing_fields m))) [
    | inr h ↦ rw (e, h, check_message) tt
    | inl h ↦ rw (e, h, check_message) n
  ]
]

listen-IsFit :
    (t : String) (e : InitEvent) (errors : List String)
    → IsNamed t e
    → IsFit t (listen e (waiting errors))
unfolding listen
listen-IsFit t (message m) errors n = elim (Bool-cases (is_hook_message m)) [
  | inl e ↦ rw (e, listen) tt
  | inr e ↦ rw (e, listen) (check-IsFit t m errors n)
]
listen-IsFit t (stderr text) errors n = tt
listen-IsFit t closed errors n = tt
listen-IsFit t timed_out errors n = tt

hear-IsSound :
    (now cwd t : String) (timer : ℕ) (w : Waiter) (s : Server)
    → IsFit t w
    → IsSound s
    → IsSound (hear now cwd t timer w s)
hear-IsSound now cwd t timer (waiting errors) s n v =
    waits-IsSound s _ s.outcomes s.manager v v.gentle
hear-IsSound now cwd t timer (settled (rejected code errors)) s n v =
    waits-IsSound s _ _ _ v (clear_timeout-IsGentle timer s.manager v.gentle)
hear-IsSound now cwd t timer (settled (initialised m)) s n v =
    register_init-IsSound now cwd t m _ n.0 n.1
      (waits-IsSound s _ _ _ v (clear_timeout-IsGentle timer s.manager v.gentle))

pub notify_wait-IsSound :
    (now cwd t : String) (e : InitEvent) (s : Server)
    → IsNamed t e
    → IsSound s
    → IsSound (notify_wait now cwd t e s)
unfolding notify_wait
notify_wait-IsSound now cwd t e s n v = elim (Option-cases (JsMap.get t s.waits)) [
  | inl absent ↦ rw (absent, notify_wait) v
  | inr ((timer, errors), found) ↦
      rw (found, notify_wait)
        (hear-IsSound now cwd t timer (listen e (waiting errors)) s (listen-IsFit t e errors n) v)
]
