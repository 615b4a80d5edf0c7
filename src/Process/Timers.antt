-- ===== src/Process/Timers.antt =====
-- What stopping a conversation leaves behind (claude-process-manager.ts).
use private_agent_platform.Base.{
  ℕ, suc, ◌<◌, String, Bool, not, ◌||◌, List, [], ◌∷◌, ◌++◌, none, ◌==◌, if◌then◌else◌, eqb, eq_iff,
  eq_refl, filter, filter-congr_on, filter-always, any, All, ◌≡◌, refl, sym, ◌∙◌, ap, arith,
  Option-cases, Bool-cases, inl, inr,
}
use private_agent_platform.JsMap
use private_agent_platform.JsMap.{JsMap}
use private_agent_platform.JsMap.Laws.{get-set, get-delete}
use private_agent_platform.Process.{
  sigterm, Timer, kill_timeout, Manager, timers_of, track_timeout, clear_timeouts, kill, forget,
  finish_stop, abandon,
}

-- The identifiers of the timers that run were given out.
abbrev pub IsCounted : Manager → Type 0
IsCounted m = All (λ t. t.0 < m.next_timer) m.armed

abbrev pub tracks : String → Manager → ℕ → Bool
tracks streaming m id = any (λ x. eqb x id) (timers_of (JsMap.get streaming m.timeouts))

any-snoc : (p : ℕ → Bool) (xs : List ℕ) (n : ℕ) → any p (xs ++ (n ∷ [])) ≡ (any p xs || p n)
any-snoc p [] n = ground arith
any-snoc p (x ∷ xs) n = ground (arith, any-snoc p xs n)

-- The timers that stay armed.
pub clear_timeouts-armed :
    (t : String) (m : Manager)
    → (clear_timeouts t m).armed ≡ filter (λ x. not (tracks t m x.0)) m.armed
unfolding clear_timeouts
clear_timeouts-armed t m = elim (Option-cases (JsMap.get t m.timeouts)) [
  | inl e ↦ rw (e, clear_timeouts) (sym (filter-always m.armed))
  | inr (ts, e) ↦ rw (e, clear_timeouts)
]

clear_timeouts-get :
    (t j : String) (m : Manager)
    → JsMap.get j (clear_timeouts t m).timeouts ≡ (if t == j then none else JsMap.get j m.timeouts)
unfolding clear_timeouts
clear_timeouts-get t j m = elim (Option-cases (JsMap.get t m.timeouts)) [
  | inl e ↦ rw (e, clear_timeouts) (ground (arith, eq_iff t j))
  | inr (ts, e) ↦ rw (e, clear_timeouts) (get-delete t j m.timeouts)
]

tracks-track :
    (t : String) (timer : Timer) (m : Manager) (id : ℕ)
    → tracks t (track_timeout t timer m) id ≡ (tracks t m id || eqb m.next_timer id)
unfolding track_timeout
tracks-track t timer m id =
    rw
      (
        get-set t t (timers_of (JsMap.get t m.timeouts) ++ (m.next_timer ∷ [])) m.timeouts,
        eq_refl t,
      )
      (any-snoc (λ x. eqb x id) (timers_of (JsMap.get t m.timeouts)) m.next_timer)

older-untracked :
    (t : String) (timer : Timer) (m : Manager) (xs : List (ℕ × Timer))
    → All (λ x. x.0 < m.next_timer) xs
    → All (λ x. not (tracks t (track_timeout t timer m) x.0) ≡ not (tracks t m x.0)) xs
older-untracked t timer m [] a = tt
older-untracked t timer m (x ∷ xs) a =
    (ap not (tracks-track t timer m x.0) ∙ ground (arith, a.0), older-untracked t timer m xs a.1)

-- A timer that the stream has just armed goes with its others.
track-untracked :
    (t : String) (timer : Timer) (m : Manager)
    → IsCounted m
    → filter (λ x. not (tracks t (track_timeout t timer m) x.0)) (track_timeout t timer m).armed
      ≡ filter (λ x. not (tracks t m x.0)) m.armed
unfolding track_timeout
track-untracked t timer m v =
    rw (tracks-track t timer m m.next_timer)
      (ground arith ∙ filter-congr_on _ _ m.armed (older-untracked t timer m m.armed v))

-- The timer that the stop arms is cleared at once.
pub stop-armed :
    (sent : Bool) (t : String) (child : ℕ) (m : Manager)
    → IsCounted m
    → (finish_stop sent t child m).armed ≡ filter (λ x. not (tracks t m x.0)) m.armed
unfolding finish_stop forget kill
stop-armed sent t child m v = elim (Bool-cases (m.killed child)) [
  | inl e ↦ rw (e, finish_stop) (clear_timeouts-armed t m)
  | inr e ↦
      let m' = kill sent child sigterm m in
      rw (e, finish_stop)
        (clear_timeouts-armed t (track_timeout t (kill_timeout child) m')
          ∙ track-untracked t (kill_timeout child) m' v)
]

pub clear_timeouts_keeps :
    (t : String) (m : Manager)
    → let m' = clear_timeouts t m in
      (m'.processes ≡ m.processes)
      × (m'.output_buffers ≡ m.output_buffers)
      × (m'.configs ≡ m.configs)
      × (m'.next_timer ≡ m.next_timer)
      × (m'.signals ≡ m.signals)
      × (m'.killed ≡ m.killed)
unfolding clear_timeouts
clear_timeouts_keeps t m = elim (Option-cases (JsMap.get t m.timeouts)) [
  | inl e ↦ rw (e, clear_timeouts) (refl, refl, refl, refl, refl, refl)
  | inr (ts, e) ↦ rw (e, clear_timeouts) (refl, refl, refl, refl, refl, refl)
]

-- The four maps without the entry of the stream.
abbrev pub Forgets : String → Manager → Manager → Type 0
Forgets t m m' =
    (j : String)
    → (JsMap.get j m'.processes ≡ (if t == j then none else JsMap.get j m.processes))
      × (JsMap.get j m'.output_buffers ≡ (if t == j then none else JsMap.get j m.output_buffers))
      × (JsMap.get j m'.timeouts ≡ (if t == j then none else JsMap.get j m.timeouts))
      × (JsMap.get j m'.configs ≡ (if t == j then none else JsMap.get j m.configs))

pub abandon-Forgets : (t : String) (m : Manager) → Forgets t m (abandon t m)
unfolding abandon forget
abandon-Forgets t m j =
    let k = clear_timeouts_keeps t m in
    (
      get-delete t j _ ∙ rw k.0,
      get-delete t j _ ∙ rw k.1,
      clear_timeouts-get t j m,
      get-delete t j _ ∙ rw k.2,
    )

tracked-Forgets :
    (t : String) (timer : Timer) (m m' : Manager)
    → Forgets t (track_timeout t timer m) m'
    → Forgets t m m'
unfolding track_timeout
tracked-Forgets t timer m m' f j = (
  (f j).0,
  (f j).1,
  (f j).2
      ∙ ground (
        arith,
        get-set t j (timers_of (JsMap.get t m.timeouts) ++ (m.next_timer ∷ [])) m.timeouts,
      ),
  (f j).3,
)

stop-Forgets :
    (sent : Bool) (t : String) (child : ℕ) (m : Manager) → Forgets t m (finish_stop sent t child m)
unfolding finish_stop abandon kill
stop-Forgets sent t child m = elim (Bool-cases (m.killed child)) [
  | inl e ↦ rw (e, finish_stop) (abandon-Forgets t m)
  | inr e ↦
      let m' = kill sent child sigterm m in
      rw (e, finish_stop)
        (tracked-Forgets t (kill_timeout child) m'
          (abandon t (track_timeout t (kill_timeout child) m'))
          (abandon-Forgets t (track_timeout t (kill_timeout child) m')))
]

pub stop-signals :
    (sent : Bool) (t : String) (child : ℕ) (m : Manager)
    → (finish_stop sent t child m).signals
      ≡ (if m.killed child then m.signals else m.signals ++ ((child, sigterm) ∷ []))
unfolding finish_stop forget kill track_timeout
stop-signals sent t child m = elim (Bool-cases (m.killed child)) [
  | inl e ↦ rw (e, finish_stop) (clear_timeouts_keeps t m).4
  | inr e ↦ rw (e, finish_stop) (clear_timeouts_keeps t _).4
]

pub stop-next :
    (sent : Bool) (t : String) (child : ℕ) (m : Manager)
    → (finish_stop sent t child m).next_timer
      ≡ (if m.killed child then m.next_timer else suc m.next_timer)
unfolding finish_stop forget kill track_timeout
stop-next sent t child m = elim (Bool-cases (m.killed child)) [
  | inl e ↦ rw (e, finish_stop) (clear_timeouts_keeps t m).3
  | inr e ↦ rw (e, finish_stop) (clear_timeouts_keeps t _).3
]

-- Stopping a conversation sends SIGTERM, unless the child was signalled before; it takes the stream,
-- and no other, out of the manager's maps, and leaves armed exactly the timers that ran before and
-- are not the stream's: the timer for SIGKILL, which it arms itself, is not among them.
pub finish_stop-cleared :
    (sent : Bool) (streaming : String) (child : ℕ) (m : Manager)
    → IsCounted m
    → let m' = finish_stop sent streaming child m in
      Forgets streaming m m'
      × (m'.armed ≡ filter (λ x. not (tracks streaming m x.0)) m.armed)
      × (m'.signals ≡ (if m.killed child then m.signals else m.signals ++ ((child, sigterm) ∷ [])))
finish_stop-cleared sent streaming child m v = (
  stop-Forgets sent streaming child m,
  stop-armed sent streaming child m v,
  stop-signals sent streaming child m,
)
