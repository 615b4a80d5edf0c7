-- ===== src/Client/Connections.antt =====
-- web/cui/src/web/chat/hooks/useMultipleStreams.ts: the connections that the web client keeps to
-- several streams, up to a limit. A step is the code between two waits. The reader, the last event
-- and the callbacks are left out; the limit, the retries and the delay are arguments.
pub mod Full
pub mod Limit
use private_agent_platform.Base.{
  ℕ, zero, suc, ◌+◌, ◌*◌, String, Bool, true, false, not, List, [], ◌∷◌, ◌++◌, Option, none, some,
  ◌==◌, if◌then◌else◌, is_truthy, any, leb, ltb, eqb, filter, length,
}
use private_agent_platform.JsMap
use private_agent_platform.JsMap.{JsMap}

pub data ConnectionState : Type 0 where
  connecting connected disconnected error : ConnectionState

-- `retry_timeout`: the delay of the timer that is armed.
pub record Connection : Type 0 where
  pub connection_state : ConnectionState
  pub retry_count : ℕ
  pub retry_timeout : Option ℕ

pub record Streams : Type 0 where
  pub connections : JsMap Connection
  pub pending_queue : List String

abbrev pub is_active : Connection → Bool
is_active c = elim c.connection_state [ connecting ↦ true | connected ↦ true | _ ↦ false ]

abbrev pub is_active_at : Option Connection → Bool
is_active_at none = false
is_active_at (some c) = is_active c

abbrev pub get_active_connection_count : JsMap Connection → ℕ
get_active_connection_count m = length (filter (λ e. is_active e.1) m)

abbrev pub or_fresh : Option Connection → Connection
or_fresh none = record { connection_state = connecting; retry_count = 0; retry_timeout = none }
or_fresh (some c) = c

-- The part of `connectToStream` before its first wait.
unfoldable pub connect_to_stream : ℕ → String → Streams → Streams
connect_to_stream limit id s =
    let existing = JsMap.get id s.connections in
    if is_active_at existing
    then s
    else if leb limit (get_active_connection_count s.connections)
    then if any (λ x. x == id) s.pending_queue
      then s
      else record s { pending_queue = s.pending_queue ++ (id ∷ []) }
    else record s {
      connections =
          JsMap.set id (record (or_fresh existing) { connection_state = connecting }) s.connections;
    }

abbrev pub connect_next : ℕ → String → Streams → Streams
connect_next limit id s = if is_truthy id then connect_to_stream limit id s else s

-- The loop of `processPendingConnections`, which counts the active connections once, before it.
-- `none`: the fuel ran out.
unfoldable pub process_queue : ℕ → ℕ → ℕ → Streams → Option Streams
unfolding connect_to_stream
process_queue zero limit active s = none
process_queue (suc fuel) limit active s = elim s.pending_queue [
  | [] ↦ some s
  | id ∷ rest ↦ elim (ltb active limit) [
    | false ↦ some s
    | true ↦
        process_queue fuel limit active (connect_next limit id (record s { pending_queue = rest }))
  ]
]

abbrev process_pending_connections : ℕ → ℕ → Streams → Option Streams
process_pending_connections fuel limit s =
    process_queue fuel limit (get_active_connection_count s.connections) s

unfoldable pub disconnect_stream : ℕ → ℕ → String → Streams → Option Streams
unfolding process_queue
disconnect_stream fuel limit id s = elim (JsMap.get id s.connections) [
  | none ↦ some s
  | some c ↦ process_pending_connections fuel limit (record s {
    connections =
        JsMap.set id (record c { connection_state = disconnected; retry_timeout = none })
          s.connections;
  })
]

-- The response of a stream is there, and its reader.
unfoldable stream_opened : String → Streams → Streams
stream_opened id s = elim (JsMap.get id s.connections) [
  | none ↦ s
  | some c ↦ record s {
    connections =
        JsMap.set id (record c { connection_state = connected; retry_count = 0 }) s.connections;
  }
]

unfoldable power_of_two : ℕ → ℕ
power_of_two zero = 1
power_of_two (suc n) = 2 * power_of_two n

-- An error of a stream, other than an abort: the next try waits twice as long as the one before.
unfoldable stream_failed : ℕ → ℕ → String → Streams → Streams
unfolding power_of_two
stream_failed max_retries initial_delay id s = elim (JsMap.get id s.connections) [
  | none ↦ s
  | some c ↦ record s {
    connections =
        JsMap.set id
          (if ltb c.retry_count max_retries
            then record c {
              connection_state = error;
              retry_count = c.retry_count + 1;
              retry_timeout = some (initial_delay * power_of_two c.retry_count);
            }
            else record c { connection_state = error })
          s.connections;
  }
]

-- The end of a stream that is still active.
unfoldable stream_ended : ℕ → ℕ → String → Streams → Option Streams
unfolding disconnect_stream
stream_ended fuel limit id s =
    if is_active_at (JsMap.get id s.connections) then disconnect_stream fuel limit id s else some s
