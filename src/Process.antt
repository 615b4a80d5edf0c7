-- ===== src/Process.antt =====
-- web/cui/src/services/claude-process-manager.ts: the child processes of the running conversations.
-- A child is a number; `killed` is the field of the child object, which a signal that was sent sets,
-- and `signals` what was sent to which child, in order. A timer is a number too; `armed` holds the
-- timers that have neither fired nor been cleared. Spawning is left to the caller.
pub mod Init
pub mod Timers
pub mod Steps
use private_agent_platform.Base.{
  ℕ, suc, ◌+◌, String, Bool, true, false, not, ◌&&◌, ◌||◌, List, [], ◌∷◌, ◌++◌, Option, none, some,
  if◌then◌else◌, eqb, filter, any, find?,
}
use private_agent_platform.JsMap
use private_agent_platform.JsMap.{JsMap}
use private_agent_platform.Types.{ConversationMessage}

pub record Config : Type 0 where
  pub working_directory : String
  pub initial_prompt : String
  pub model : Option String
  pub allowed_tools : Option (List String)
  pub disallowed_tools : Option (List String)
  pub system_prompt : Option String
  pub claude_executable_path : Option String
  pub previous_messages : Option (List ConversationMessage)
  pub permission_mode : Option String

pub data Signal : Type 0 where
  sigterm sigkill : Signal

-- What a timer does when it fires: it gives up waiting for a stream, or kills a child.
pub data Timer : Type 0 where
  init_timeout : String → Timer
  kill_timeout : ℕ → Timer

pub record Manager : Type 0 where
  pub processes : JsMap ℕ
  pub output_buffers : JsMap String
  pub timeouts : JsMap (List ℕ)
  pub configs : JsMap Config
  pub armed : List (ℕ × Timer)
  pub next_timer : ℕ
  pub killed : ℕ → Bool
  pub signals : List (ℕ × Signal)

abbrev pub timers_of : Option (List ℕ) → List ℕ
timers_of none = []
timers_of (some ts) = ts

-- `setTimeout`, and the registration of the timer under its stream.
unfoldable pub track_timeout : String → Timer → Manager → Manager
track_timeout streaming timer m = record m {
  timeouts =
      JsMap.set streaming (timers_of (JsMap.get streaming m.timeouts) ++ (m.next_timer ∷ []))
        m.timeouts;
  armed = (m.next_timer, timer) ∷ m.armed;
  next_timer = suc m.next_timer;
}

-- `clearTimeout` of each timer of the stream.
unfoldable pub clear_timeouts : String → Manager → Manager
clear_timeouts streaming m = elim (JsMap.get streaming m.timeouts) [
  | none ↦ m
  | some ts ↦ record m {
    timeouts = JsMap.delete streaming m.timeouts;
    armed = filter (λ t. not (any (λ x. eqb x t.0) ts)) m.armed;
  }
]

-- `kill(signal)`; `sent` says whether the system could send it.
unfoldable pub kill : Bool → ℕ → Signal → Manager → Manager
kill sent child signal m = record m {
  signals = m.signals ++ ((child, signal) ∷ []);
  killed = λ c. (sent && eqb c child) || m.killed c;
}

-- The clean-up that ends a stream, in `stopConversation` and where a start fails.
unfoldable pub forget : String → Manager → Manager
forget streaming m = record m {
  processes = JsMap.delete streaming m.processes;
  output_buffers = JsMap.delete streaming m.output_buffers;
  configs = JsMap.delete streaming m.configs;
}

-- `stopConversation`, from the end of its wait: `child` is the process that it found before.
unfoldable pub finish_stop : Bool → String → ℕ → Manager → Manager
unfolding track_timeout clear_timeouts kill forget
finish_stop sent streaming child m =
    let m' =
      if m.killed child
      then m
      else track_timeout streaming (kill_timeout child) (kill sent child sigterm m) in
    forget streaming (clear_timeouts streaming m')

-- Without a wait: false where there is no such process.
unfoldable pub stop_conversation : Bool → String → Manager → Manager × Bool
unfolding finish_stop
stop_conversation sent streaming m = elim (JsMap.get streaming m.processes) [
  | none ↦ (m, false)
  | some child ↦ (finish_stop sent streaming child m, true)
]

-- `clearTimeout` of one timer.
unfoldable pub clear_timeout : ℕ → Manager → Manager
clear_timeout id m = record m { armed = filter (λ t. not (eqb t.0 id)) m.armed }

-- The callback of a timer of the second kind.
unfoldable fire_kill : Bool → ℕ → Manager → Manager
unfolding kill
fire_kill sent child m = if m.killed child then m else kill sent child sigkill m

-- A timer fires if it is armed. The first kind ends a wait, which no field here records.
unfoldable pub fire : Bool → ℕ → Manager → Manager
unfolding clear_timeout fire_kill
fire sent id m = elim (find? (λ t. eqb t.0 id) m.armed) [
  | none ↦ m
  | some (i, init_timeout streaming) ↦ clear_timeout id m
  | some (i, kill_timeout child) ↦ fire_kill sent child (clear_timeout id m)
]

unfoldable pub new : Manager
new = record {
  processes = [];
  output_buffers = [];
  timeouts = [];
  configs = [];
  armed = [];
  next_timer = 0;
  killed = λ c. false;
  signals = [];
}

unfoldable pub get_active_sessions : Manager → List String
get_active_sessions m = JsMap.keys m.processes

unfoldable pub is_session_active : String → Manager → Bool
is_session_active streaming m = JsMap.has streaming m.processes

-- The part of `executeConversationFlow` up to the wait for the first message: the configuration is
-- stored, the timer of one minute runs, and the spawned child is registered with an empty buffer.
unfoldable pub launch : String → Config → ℕ → Manager → Manager
unfolding track_timeout
launch streaming config child m =
    let m₁ = record m { configs = JsMap.set streaming config m.configs } in
    let m₂ = track_timeout streaming (init_timeout streaming) m₁ in
    record m₂ {
      processes = JsMap.set streaming child m₂.processes;
      output_buffers = JsMap.set streaming "" m₂.output_buffers;
    }

-- The `catch` of `executeConversationFlow`: the child is not killed.
unfoldable pub abandon : String → Manager → Manager
unfolding clear_timeouts forget
abandon streaming m = forget streaming (clear_timeouts streaming m)

-- The part of `handleProcessClose` before the notification, and the configuration that it read.
unfoldable pub handle_process_close : String → Manager → Manager × Option Config
unfolding clear_timeouts forget
handle_process_close streaming m =
    let m' = clear_timeouts streaming m in (forget streaming m', JsMap.get streaming m'.configs)
