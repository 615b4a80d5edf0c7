-- ===== src/Client/Connections/Full.antt =====
-- `processPendingConnections` of useMultipleStreams.ts where the streams that wait are more than the
-- connections that are free.
use private_agent_platform.Base.{
  ℕ, zero, suc, String, true, false, [], ◌∷◌, none, is_truthy, leb, ltb, ◌≡◌, refl,
}
use private_agent_platform.JsMap
use private_agent_platform.JsMap.{JsMap}
use private_agent_platform.Client.Connections.{
  Connection, Streams, is_active_at, get_active_connection_count, connect_to_stream, connect_next,
  process_queue,
}

abbrev pub waiting : JsMap Connection → String → Streams
waiting cs id = record { connections = cs; pending_queue = id ∷ [] }

-- With the limit reached, a stream that waits alone goes back to the queue.
requeued :
    (limit : ℕ) (id : String) (cs : JsMap Connection)
    → is_truthy id ≡ true
    → is_active_at (JsMap.get id cs) ≡ false
    → leb limit (get_active_connection_count cs) ≡ true
    → connect_next limit id (record (waiting cs id) { pending_queue = [] }) ≡ waiting cs id
unfolding connect_to_stream
requeued limit id cs named inactive full = rw (named, inactive, full)

-- Once the limit of connections is reached with one stream left in the queue that is not connected,
-- the loop over the queue does not end, whatever fuel it has, where the count that it tests is below
-- the limit: the code takes that count before the loop.
pub process_queue-hangs :
    (fuel limit active : ℕ) (id : String) (cs : JsMap Connection)
    → is_truthy id ≡ true
    → ltb active limit ≡ true
    → is_active_at (JsMap.get id cs) ≡ false
    → leb limit (get_active_connection_count cs) ≡ true
    → process_queue fuel limit active (waiting cs id) ≡ none
unfolding process_queue
process_queue-hangs zero limit active id cs named free inactive full = refl
process_queue-hangs (suc fuel) limit active id cs named free inactive full =
    rw (free, requeued limit id cs named inactive full, process_queue)
      (process_queue-hangs fuel limit active id cs named free inactive full)
