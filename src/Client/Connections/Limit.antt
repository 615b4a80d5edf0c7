-- ===== src/Client/Connections/Limit.antt =====
-- The limit of connections in useMultipleStreams.ts.
use private_agent_platform.Base.{
  ℕ, zero, suc, ◌+◌, ◌≤◌, String, Bool, List, [], ◌∷◌, none, some, ◌==◌, if◌then◌else◌, is_truthy,
  leb, ltb, any, ◌≡◌, sym, subst, arith, Bool-cases, Option-cases, inl, inr,
}
use mathlib.Core.Option.{some-injective}
use private_agent_platform.JsMap
use private_agent_platform.JsMap.{JsMap}
use private_agent_platform.Client.Connections.{
  Connection, connecting, disconnected, Streams, is_active, is_active_at, or_fresh,
  get_active_connection_count, connect_to_stream, connect_next, process_queue, disconnect_stream,
}

abbrev as_one : Bool → ℕ
as_one b = if b then 1 else 0

count-cons :
    (e : String × Connection) (m : JsMap Connection)
    → get_active_connection_count (e ∷ m) ≡ as_one (is_active e.1) + get_active_connection_count m
count-cons e m = elim (Bool-cases (is_active e.1)) [
  | inl t ↦ rw t (omega arith)
  | inr f ↦ rw f (omega arith)
]

-- A connection that is set adds at most itself.
count-set :
    (k : String) (c : Connection) (m : JsMap Connection)
    → get_active_connection_count (JsMap.set k c m)
      ≤ get_active_connection_count m + as_one (is_active c)
unfolding JsMap.set
count-set k c [] = rw (count-cons (k, c) []) (omega arith)
count-set k c ((j, w) ∷ m) = elim (Bool-cases (j == k)) [
  | inl t ↦ rw (t, count-cons (j, c) m, count-cons (j, w) m) (omega arith)
  | inr f ↦
      rw (f, count-cons (j, w) (JsMap.set k c m), count-cons (j, w) m)
        (let ih = count-set k c m in omega arith)
]

-- However many streams are asked for, the active connections stay within the limit.
pub connect_to_stream-limit :
    (limit : ℕ) (id : String) (s : Streams)
    → get_active_connection_count s.connections ≤ limit
    → get_active_connection_count (connect_to_stream limit id s).connections ≤ limit
unfolding connect_to_stream
connect_to_stream-limit limit id s h =
    elim (Bool-cases (is_active_at (JsMap.get id s.connections))) [
      | inl t ↦ rw (t, connect_to_stream) h
      | inr f ↦ elim (Bool-cases (leb limit (get_active_connection_count s.connections))) [
        | inl full ↦ elim (Bool-cases (any (λ x. x == id) s.pending_queue)) [
          | inl there ↦ rw (f, full, there, connect_to_stream) h
          | inr new ↦ rw (f, full, new, connect_to_stream) h
        ]
        | inr room ↦
            rw (f, room, connect_to_stream)
              (let added =
                  count-set id
                    (record (or_fresh (JsMap.get id s.connections)) {
                      connection_state = connecting;
                    })
                    s.connections in
                ground arith)
      ]
    ]

connect_next-limit :
    (limit : ℕ) (id : String) (s : Streams)
    → get_active_connection_count s.connections ≤ limit
    → get_active_connection_count (connect_next limit id s).connections ≤ limit
connect_next-limit limit id s h = elim (Bool-cases (is_truthy id)) [
  | inl t ↦ rw t (connect_to_stream-limit limit id s h)
  | inr f ↦ rw f h
]

queue-limit :
    (fuel limit active : ℕ) (cs : JsMap Connection) (queue : List String) (s' : Streams)
    → get_active_connection_count cs ≤ limit
    → process_queue fuel limit active (record { connections = cs; pending_queue = queue }) ≡ some s'
    → get_active_connection_count s'.connections ≤ limit
unfolding process_queue
queue-limit zero limit active cs queue s' h ends = cc
queue-limit (suc fuel) limit active cs [] s' h ends =
    subst (λ (s : Streams). get_active_connection_count s.connections ≤ limit)
      (some-injective _ _ ends) h
queue-limit (suc fuel) limit active cs (id ∷ rest) s' h ends =
    elim (Bool-cases (ltb active limit)) [
      | inl t ↦
          let next = connect_next limit id (record { connections = cs; pending_queue = rest }) in
          queue-limit fuel limit active next.connections next.pending_queue s'
            (connect_next-limit limit id (record { connections = cs; pending_queue = rest }) h)
            (rw (sym ends, t, process_queue))
      | inr f ↦
          let old : Streams = record { connections = cs; pending_queue = id ∷ rest } in
          let same : some old ≡ some s' = rw (sym ends, f, process_queue) in
          subst (λ (s : Streams). get_active_connection_count s.connections ≤ limit)
            (some-injective _ _ same) h
    ]

-- Where a stream is disconnected and the loop over the queue ends, the active connections stay within
-- the limit.
disconnect_stream-limit :
    (fuel limit : ℕ) (id : String) (s s' : Streams)
    → get_active_connection_count s.connections ≤ limit
    → disconnect_stream fuel limit id s ≡ some s'
    → get_active_connection_count s'.connections ≤ limit
unfolding disconnect_stream
disconnect_stream-limit fuel limit id s s' h ends =
    elim (Option-cases (JsMap.get id s.connections)) [
      | inl absent ↦
          subst (λ (s : Streams). get_active_connection_count s.connections ≤ limit)
            (some-injective s s' (rw (sym ends, absent, disconnect_stream))) h
      | inr (c, found) ↦
          let closed : Connection = record c {
            connection_state = disconnected;
            retry_timeout = none;
          } in
          let fewer = count-set id closed s.connections in
          queue-limit fuel limit (get_active_connection_count (JsMap.set id closed s.connections))
            (JsMap.set id closed s.connections) s.pending_queue s' (omega arith)
            (rw (sym ends, found, disconnect_stream))
    ]
