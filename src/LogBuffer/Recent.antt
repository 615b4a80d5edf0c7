-- ===== src/LogBuffer/Recent.antt =====
-- Lemmas that compare the buffer of log-stream-buffer.ts with the whole log.
use private_agent_platform.Base.{
  ℕ, zero, suc, ◌+◌, ◌-◌, ◌≤◌, List, [], ◌∷◌, ◌++◌, none, some, ◌≡◌, refl, sym, ◌∙◌, ap, arith,
  length, drop, length-append, length-drop, if◌then◌else◌, ltb, leb, ltb→lt, leb→le, Bool-cases,
  inl, inr,
}
use mathlib.Core.List.{append_assoc, append-nil}
use Prim.Native.Nat.{min}
use private_agent_platform.LogBuffer.{
  pos, LogBuffer, add_log, add_logs, get_recent_logs, clear, shift,
}

module _ {ℓ} {A : Type ℓ} where
  -- The last `n` elements.
  abbrev pub last : ℕ → List A → List A
  last n xs = drop (length xs - n) xs

  drop-append : (n : ℕ) (xs ys : List A) → n ≤ length xs → drop n (xs ++ ys) ≡ drop n xs ++ ys
  drop-append zero xs ys h = refl
  drop-append (suc n) [] ys h = absurd (omega arith)
  drop-append (suc n) (x ∷ xs) ys h = drop-append n xs ys (omega arith)

  drop-nil : (n : ℕ) → drop {A = A} n [] ≡ []
  drop-nil zero = refl
  drop-nil (suc n) = refl

  drop-drop : (m n : ℕ) (xs : List A) → drop m (drop n xs) ≡ drop (n + m) xs
  drop-drop m zero xs = ap (λ k. drop k xs) (omega arith)
  drop-drop m (suc n) [] = drop-nil m ∙ sym (drop-nil (suc n + m))
  drop-drop m (suc n) (x ∷ xs) =
      let e : suc n + m ≡ suc (n + m) = omega arith in rw e (drop-drop m n xs)

  shift-drop : (xs : List A) → shift xs ≡ drop 1 xs
  shift-drop [] = refl
  shift-drop (x ∷ xs) = refl

  -- The buffer after one more line, as the list that the code keeps.
  last_grown :
      (m : ℕ) (line : A) (xs : List A)
      → (if ltb m (length (last m xs ++ (line ∷ [])))
          then shift (last m xs ++ (line ∷ []))
          else last m xs ++ (line ∷ []))
        ≡ last m (xs ++ (line ∷ []))
  last_grown m line xs =
      let zs = xs ++ (line ∷ []) in
      let k = length xs - m in
      let grown : last m xs ++ (line ∷ []) ≡ drop k zs =
        sym (drop-append k xs (line ∷ []) (omega arith)) in
      let size : length zs ≡ length xs + 1 = length-append xs (line ∷ []) in
      let counted : length (drop k zs) ≡ length zs - k = length-drop k zs in
      rw (grown, shift-drop (drop k zs), drop-drop 1 k zs)
        (elim (Bool-cases (ltb m (length (drop k zs)))) [
          | inl over ↦
              let e : k + 1 ≡ length zs - m = omega (arith, ltb→lt m (length (drop k zs)) over) in
              rw (over, e)
          | inr fits ↦ let e : k ≡ length zs - m = ground arith in rw (fits, e)
        ])

  add_log-last :
      (m : ℕ) (line : A) (xs : List A)
      → (add_log line (record { buffer = last m xs; max_buffer_size = m })).0
        ≡ record { buffer = last m (xs ++ (line ∷ [])); max_buffer_size = m }
  unfolding add_log
  add_log-last m line xs = λ i. record { buffer = last_grown m line xs i; max_buffer_size = m }

  add_logs_from :
      (m : ℕ) (xs lines : List A)
      → add_logs lines (record { buffer = last m xs; max_buffer_size = m })
        ≡ (record { buffer = last m (xs ++ lines); max_buffer_size = m }, lines)
  unfolding add_logs
  add_logs_from m xs [] = rw (append-nil xs)
  add_logs_from m xs (line ∷ lines) =
      rw (add_log-last m line xs, add_logs_from m (xs ++ (line ∷ [])) lines)
        (rw (append_assoc xs (line ∷ []) lines))

  drop_all : (n : ℕ) (xs : List A) → length xs ≤ n → drop n xs ≡ []
  drop_all n [] h = drop-nil n
  drop_all zero (x ∷ xs) h = absurd (omega arith)
  drop_all (suc n) (x ∷ xs) h = drop_all n xs (omega arith)

  last-last : (k m : ℕ) (xs : List A) → last k (last m xs) ≡ last (min k m) xs
  last-last k m xs =
      rw
        (
          length-drop (length xs - m) xs,
          drop-drop (length xs - (length xs - m) - k) (length xs - m) xs,
        )
        (ap (λ n. drop n xs) (omega arith))

  get_recent_logs-last :
      (k : ℕ) (b : LogBuffer A) → get_recent_logs (some (pos k)) b ≡ last k b.buffer
  unfolding get_recent_logs
  get_recent_logs-last zero b = sym (drop_all (length b.buffer - 0) b.buffer (omega arith))
  get_recent_logs-last (suc n) b = elim (Bool-cases (leb (length b.buffer) (suc n))) [
    | inl all ↦
        let e : length b.buffer - suc n ≡ 0 = omega (arith, leb→le (length b.buffer) (suc n) all) in
        rw (all, e)
    | inr some_ ↦ rw some_
  ]

  -- After a clear and any lines, the buffer is the last `max_buffer_size` of them in order, every
  -- line was emitted once and in order, and a limit `k` that is not negative gives the last `k` of
  -- what is buffered, no limit all of it.
  pub add_logs-recent :
      (lines : List A) (b : LogBuffer A) (k : ℕ)
      → let (b', events) = add_logs lines (clear b) in
        (b'.buffer ≡ last b.max_buffer_size lines)
        × (events ≡ lines)
        × (get_recent_logs (some (pos k)) b' ≡ last (min k b.max_buffer_size) lines)
        × (get_recent_logs none b' ≡ last b.max_buffer_size lines)
  unfolding clear
  add_logs-recent lines b k =
      let m = b.max_buffer_size in
      let done : add_logs lines (record { buffer = []; max_buffer_size = m })
          ≡ (record { buffer = last m lines; max_buffer_size = m }, lines) =
        rw (drop-nil (0 - m)) at (add_logs_from m [] lines) in
      rw done
        (refl, refl, get_recent_logs-last k _ ∙ last-last k m lines, unfold get_recent_logs in refl)
