-- ===== src/Streams.antt =====
-- web/cui/src/services/stream-manager.ts: the SSE clients of each stream. A response is a number;
-- `dead` says which responses are ended or destroyed, `written` what was written to them, in order,
-- and `listening` for which of them the close handler was installed.
pub mod Laws
pub mod Tidy
pub mod Closing
pub mod Delivery
use private_agent_platform.Base.{
  ℕ, ◌+◌, String, Bool, true, false, not, ◌||◌, List, [], ◌∷◌, ◌++◌, Option, none, some,
  if◌then◌else◌, eqb, length, filter, any,
}
use private_agent_platform.JsMap
use private_agent_platform.JsMap.{JsMap}
use private_agent_platform.JsonLines.{is_empty}

-- What is written: `E` is the type of the broadcast events.
pub data Message (E : Type 0) : Type 0 where
  connected : String → Message E
  closed : String → Message E
  event : E → Message E
  heartbeat_comment : Message E

pub record Streams (E : Type 0) : Type 0 where
  pub clients : JsMap (List ℕ)
  pub heartbeat : Bool
  pub dead : ℕ → Bool
  pub written : List (ℕ × Message E)
  pub listening : List (String × ℕ)
  pub disconnected : List String

-- A `Set` of responses in insertion order.
abbrev pub add : ℕ → List ℕ → List ℕ
add r rs = if any (λ x. eqb x r) rs then rs else rs ++ (r ∷ [])

abbrev pub remove : ℕ → List ℕ → List ℕ
remove r = filter (λ x. not (eqb x r))

abbrev pub or_empty : Option (List ℕ) → List ℕ
or_empty none = []
or_empty (some rs) = rs

pub total : JsMap (List ℕ) → ℕ
total [] = 0
total ((k, rs) ∷ m) = length rs + total m

-- The clients of the stream without the response; a stream that loses its last client goes.
pub without_client : String → ℕ → JsMap (List ℕ) → JsMap (List ℕ)
without_client streaming r m = elim (JsMap.get streaming m) [
  | none ↦ m
  | some rs ↦
      let rs' = remove r rs in
      if is_empty rs' then JsMap.delete streaming m else JsMap.set streaming rs' m
]

module _ {E : Type 0} where
  abbrev pub new : (ℕ → Bool) → Streams E
  new dead = record {
    clients = [];
    heartbeat = false;
    dead = dead;
    written = [];
    listening = [];
    disconnected = [];
  }

  -- `sendSSEEvent`; false where it throws.
  pub send_sse_event : ℕ → Message E → Streams E → Streams E × Bool
  send_sse_event r message s =
      if s.dead r
      then (s, false)
      else (record s { written = s.written ++ ((r, message) ∷ []) }, true)

  pub start_heartbeat : Streams E → Streams E
  start_heartbeat s = record s { heartbeat = true }

  pub stop_heartbeat : Streams E → Streams E
  stop_heartbeat s = record s { heartbeat = false }

  pub get_total_client_count : Streams E → ℕ
  unfolding total
  get_total_client_count s = total s.clients

  pub stop_if_idle : Streams E → Streams E
  unfolding get_total_client_count stop_heartbeat
  stop_if_idle s = if eqb (get_total_client_count s) 0 then stop_heartbeat s else s

  -- False where it throws: then the response stays registered, with no handler and no heartbeat.
  pub add_client : String → ℕ → Streams E → Streams E × Bool
  unfolding send_sse_event start_heartbeat
  add_client streaming r s =
      let rs = or_empty (JsMap.get streaming s.clients) in
      let s₁ = record s { clients = JsMap.set streaming (add r rs) s.clients } in
      let (s₂, sent) = send_sse_event r (connected streaming) s₁ in
      if sent
      then (let s₃ = start_heartbeat s₂ in
          (record s₃ { listening = (streaming, r) ∷ s₃.listening }, true))
      else (s₂, false)

  pub remove_client : String → ℕ → Streams E → Streams E
  unfolding without_client stop_if_idle
  remove_client streaming r s = stop_if_idle (record s {
    clients = without_client streaming r s.clients;
    disconnected = s.disconnected ++ (streaming ∷ []);
  })

  -- The loop of `broadcast`: the clients to which the event could not be sent.
  pub send_each : List ℕ → E → Streams E → Streams E × List ℕ
  unfolding send_sse_event
  send_each [] e s = (s, [])
  send_each (r ∷ rs) e s =
      let (s₁, sent) = send_sse_event r (event e) s in
      let (s₂, dead) = send_each rs e s₁ in if sent then (s₂, dead) else (s₂, r ∷ dead)

  pub remove_each : String → List ℕ → Streams E → Streams E
  unfolding remove_client
  remove_each streaming [] s = s
  remove_each streaming (r ∷ rs) s = remove_each streaming rs (remove_client streaming r s)

  pub broadcast : String → E → Streams E → Streams E
  unfolding send_each remove_each
  broadcast streaming e s =
      let rs = or_empty (JsMap.get streaming s.clients) in
      if is_empty rs
      then s
      else (let (s', dead) = send_each rs e s in remove_each streaming dead s')

  unfoldable get_client_count : String → Streams E → ℕ
  get_client_count streaming s = length (or_empty (JsMap.get streaming s.clients))

  unfoldable get_active_sessions : Streams E → List String
  get_active_sessions s = JsMap.keys s.clients

  -- `client.end()`
  abbrev end_response : ℕ → Streams E → Streams E
  end_response r s = record s { dead = λ x. eqb x r || s.dead x }

  -- The loop of `closeSession`; a client that is dead already is passed over.
  pub close_each : String → List ℕ → Streams E → Streams E
  unfolding send_sse_event
  close_each streaming [] s = s
  close_each streaming (r ∷ rs) s =
      let (s₁, sent) = send_sse_event r (closed streaming) s in
      close_each streaming rs (if sent then end_response r s₁ else s₁)

  pub close_session : String → Streams E → Streams E
  unfolding close_each stop_if_idle
  close_session streaming s = elim (JsMap.get streaming s.clients) [
    | none ↦ s
    | some rs ↦
        let s₁ = close_each streaming rs s in
        stop_if_idle (record s₁ { clients = JsMap.delete streaming s₁.clients })
  ]

  pub close_sessions : List String → Streams E → Streams E
  unfolding close_session
  close_sessions [] s = s
  close_sessions (k ∷ ks) s = close_sessions ks (close_session k s)

  pub disconnect_all : Streams E → Streams E
  unfolding close_sessions stop_heartbeat
  disconnect_all s = stop_heartbeat (close_sessions (JsMap.keys s.clients) s)

  -- `sendHeartbeat`
  unfoldable send_heartbeat : ℕ → Streams E → Streams E
  send_heartbeat r s =
      if s.dead r then s else record s { written = s.written ++ ((r, heartbeat_comment) ∷ []) }

  unfoldable heartbeat_each : List ℕ → Streams E → Streams E
  unfolding send_heartbeat
  heartbeat_each [] s = s
  heartbeat_each (r ∷ rs) s = heartbeat_each rs (send_heartbeat r s)

  unfoldable heartbeat_streams : JsMap (List ℕ) → Streams E → Streams E
  unfolding heartbeat_each
  heartbeat_streams [] s = s
  heartbeat_streams ((k, rs) ∷ m) s = heartbeat_streams m (heartbeat_each rs s)

  -- The callback of the interval, while it runs.
  unfoldable heartbeat_tick : Streams E → Streams E
  unfolding heartbeat_streams
  heartbeat_tick s = if s.heartbeat then heartbeat_streams s.clients s else s
