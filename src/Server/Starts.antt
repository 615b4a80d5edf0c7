-- ===== src/Server/Starts.antt =====
-- How a start ends (web/cui/src/services/claude-process-manager.ts).
use private_agent_platform.Base.{
  ℕ, String, true, false, List, [], ◌∷◌, ◌++◌, none, some, ◌≡◌, refl, ◌∙◌, ap, eq_refl,
}
use private_agent_platform.JsMap
use private_agent_platform.JsMap.{JsMap}
use private_agent_platform.JsMap.Laws.{get-delete}
use private_agent_platform.JsonLines.{is_empty}
use private_agent_platform.Types.{Fields}
use private_agent_platform.Status.{
  register_active_session, or_default, get_streaming_id, get_session_id, Context,
  get_conversation_context,
}
use private_agent_platform.Status.Bijection.{IsMatched}
use private_agent_platform.Status.Mappings.{
  register_active_session-lookup, register_active_session-context,
}
use private_agent_platform.Process.{Config, clear_timeout}
use private_agent_platform.Process.Init.{
  initialised, listen, check_message, is_hook_message, is_init_message, missing_fields,
}
use private_agent_platform.Server.{
  Server, forward_message, register_init, session_id_of, optimistic_context,
}
use private_agent_platform.Server.Events.{notify_wait, handle_claude_message}

-- The context that is stored for a session.
abbrev pub stored : String → String → Config → Context
stored now cwd config =
    let x = optimistic_context cwd config in
    record {
      initial_prompt = x.initial_prompt;
      working_directory = x.working_directory;
      model = or_default x.model "default";
      timestamp = now;
      inherited_messages = x.inherited_messages;
    }

abbrev started : String → Fields → ℕ → Server → Server
started t m timer s = record s {
  waits = JsMap.delete t s.waits;
  outcomes = s.outcomes ++ ((t, initialised m) ∷ []);
  manager = clear_timeout timer s.manager;
}

module _ (now cwd t : String) (m : Fields) (s : Server) where
  message-registers :
      (timer : ℕ) (errors : List String)
      → JsMap.get t s.waits ≡ some (timer, errors)
      → is_hook_message m ≡ false
      → is_init_message m ≡ true
      → is_empty (missing_fields m) ≡ true
      → handle_claude_message now cwd t m s ≡ register_init now cwd t m (started t m timer s)
  unfolding handle_claude_message forward_message notify_wait listen check_message
  message-registers timer errors w hook init full =
      rw (init, handle_claude_message, forward_message)
        (rw (w, notify_wait) (rw (hook, listen) (rw (init, full, check_message) refl)))

  init-registers :
      (c : String) (config : Config)
      → session_id_of m ≡ some c
      → JsMap.get t s.manager.configs ≡ some config
      → register_init now cwd t m s ≡ record s {
        status =
            (register_active_session now t c (some (optimistic_context cwd config)) s.status).0;
      }
  unfolding register_init
  init-registers c config named g = rw (named, g, register_init)

-- The first message of a pending start, when it is a complete init message, ends the wait and makes
-- the session that it names active on the stream, with the context of the start's configuration; it
-- is not broadcast, and its timer is cleared.
pub handle_claude_message-starts :
    (now cwd streaming session : String) (m : Fields) (config : Config) (timer : ℕ)
    (errors : List String) (s : Server)
    → IsMatched s.status
    → JsMap.get streaming s.waits ≡ some (timer, errors)
    → JsMap.get streaming s.manager.configs ≡ some config
    → is_hook_message m ≡ false
    → is_init_message m ≡ true
    → is_empty (missing_fields m) ≡ true
    → session_id_of m ≡ some session
    → let s' = handle_claude_message now cwd streaming m s in
      (get_session_id streaming s'.status ≡ some session)
      × (get_streaming_id session s'.status ≡ some streaming)
      × (get_conversation_context session s'.status ≡ some (stored now cwd config))
      × (s'.streams ≡ s.streams)
      × (JsMap.get streaming s'.waits ≡ none)
      × (s'.outcomes ≡ s.outcomes ++ ((streaming, initialised m) ∷ []))
      × (s'.manager ≡ clear_timeout timer s.manager)
unfolding clear_timeout
handle_claude_message-starts now cwd t c m config timer errors s v w g hook init full named =
    let done =
      message-registers now cwd t m s timer errors w hook init full
      ∙ init-registers now cwd t m (started t m timer s) c config named g in
    let x = some (optimistic_context cwd config) in
    let lookup = register_active_session-lookup now t c x s.status v c t in
    (
      ap (λ s'. get_session_id t s'.status) done ∙ lookup.1 ∙ rw (eq_refl t),
      ap (λ s'. get_streaming_id c s'.status) done ∙ lookup.0 ∙ rw (eq_refl c),
      ap (λ s'. get_conversation_context c s'.status) done
          ∙ register_active_session-context now t c (optimistic_context cwd config) s.status,
      ap (λ s'. s'.streams) done,
      ap (λ s'. JsMap.get t s'.waits) done ∙ get-delete t t s.waits ∙ rw (eq_refl t),
      ap (λ s'. s'.outcomes) done,
      ap (λ s'. s'.manager) done,
    )
