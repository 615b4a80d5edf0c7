-- ===== src/LogBuffer.antt =====
-- web/cui/src/services/log-stream-buffer.ts: the most recent log lines.
pub mod Recent
use private_agent_platform.Base.{
  ℕ, zero, suc, ◌-◌, Bool, true, false, List, [], ◌∷◌, ◌++◌, Option, none, some, if◌then◌else◌, ltb,
  leb, length, drop,
}

-- A limit is a whole number; `negsuc n` is -(n + 1).
pub data ℤ : Type 0 where
  pos : ℕ → ℤ
  negsuc : ℕ → ℤ

-- A line is any value of type `A`.
pub record LogBuffer {ℓ} (A : Type ℓ) : Type ℓ where
  pub buffer : List A
  pub max_buffer_size : ℕ

module _ {ℓ} {A : Type ℓ} where
  pub new : ℕ → LogBuffer A
  new max = record { buffer = []; max_buffer_size = max }

  -- `buffer.shift()`
  abbrev pub shift : List A → List A
  shift [] = []
  shift (x ∷ xs) = xs

  -- The new state and the line that the event `log` carries.
  pub add_log : A → LogBuffer A → LogBuffer A × A
  add_log line b =
      let grown = b.buffer ++ (line ∷ []) in
      (
        record b { buffer = if ltb b.max_buffer_size (length grown) then shift grown else grown },
        line,
      )

  -- `buffer.slice(-limit)` where it is reached.
  pub get_recent_logs : Option ℤ → LogBuffer A → List A
  get_recent_logs none b = b.buffer
  get_recent_logs (some (pos zero)) b = []
  get_recent_logs (some (pos (suc n))) b =
      if leb (length b.buffer) (suc n) then b.buffer else drop (length b.buffer - suc n) b.buffer
  get_recent_logs (some (negsuc n)) b = drop (suc n) b.buffer

  unfoldable pub clear : LogBuffer A → LogBuffer A
  clear b = record b { buffer = [] }

  -- Several lines, and the events in their order.
  pub add_logs : List A → LogBuffer A → LogBuffer A × List A
  unfolding add_log
  add_logs [] b = (b, [])
  add_logs (line ∷ lines) b =
      let (b', event) = add_log line b in
      let (b'', events) = add_logs lines b' in (b'', event ∷ events)
