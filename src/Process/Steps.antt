-- ===== src/Process/Steps.antt =====
-- The timers and signals over any sequence of steps of claude-process-manager.ts.
use private_agent_platform.Base.{
  ℕ, suc, ◌<◌, String, Bool, true, false, not, List, [], ◌∷◌, ◌++◌, some, eqb, filter, find?, All,
  ◌≡◌, refl, arith, Option-cases, Bool-cases, inl, inr,
}
use private_agent_platform.Process.{
  Config, Signal, sigterm, sigkill, Timer, init_timeout, kill_timeout, Manager, new, track_timeout,
  clear_timeouts, clear_timeout, forget, finish_stop, fire, launch, abandon, handle_process_close,
}
use private_agent_platform.Process.Timers.{
  IsCounted, tracks, clear_timeouts-armed, clear_timeouts_keeps, stop-armed, stop-signals,
  stop-next,
}

-- The steps of the manager: the parts of its methods that run without a wait, and its timers.
pub data Action : Type 0 where
  launched : String → Config → ℕ → Action
  wait_over : ℕ → Action
  stopped : Bool → String → ℕ → Action
  failed : String → Action
  exited : String → Action
  fired : Bool → ℕ → Action

unfoldable act : Action → Manager → Manager
unfolding launch clear_timeout finish_stop abandon handle_process_close fire
act (launched t config child) m = launch t config child m
act (wait_over id) m = clear_timeout id m
act (stopped sent t child) m = finish_stop sent t child m
act (failed t) m = abandon t m
act (exited t) m = (handle_process_close t m).0
act (fired sent id) m = fire sent id m

unfoldable pub act_all : List Action → Manager → Manager
unfolding act
act_all [] m = m
act_all (a ∷ rest) m = act_all rest (act a m)

abbrev is_wait : Timer → Bool
is_wait (init_timeout t) = true
is_wait (kill_timeout child) = false

abbrev is_sigterm : Signal → Bool
is_sigterm sigterm = true
is_sigterm sigkill = false

-- Armed timers only end waits, and only SIGTERM was sent.
pub record IsGentle (m : Manager) : Type 0 where
  pub counted : IsCounted m
  pub waits : All (λ t. is_wait t.1 ≡ true) m.armed
  pub gentle : All (λ s. is_sigterm s.1 ≡ true) m.signals

All-filter {ℓ κ} :
    {A : Type ℓ} (P : A → Type κ) (p : A → Bool) (xs : List A) → All P xs → All P (filter p xs)
All-filter P p [] a = tt
All-filter P p (x ∷ xs) a = elim (Bool-cases (p x)) [
  | inl e ↦ rw e (a.0, All-filter P p xs a.1)
  | inr e ↦ rw e (All-filter P p xs a.1)
]

All-snoc {ℓ κ} :
    {A : Type ℓ} (P : A → Type κ) (xs : List A) (x : A) → All P xs → P x → All P (xs ++ (x ∷ []))
All-snoc P [] x a h = (h, tt)
All-snoc P (y ∷ ys) x a h = (a.0, All-snoc P ys x a.1 h)

All-weaken {ℓ κ} :
    {A : Type ℓ} (P Q : A → Type κ) (xs : List A) → ((x : A) → P x → Q x) → All P xs → All Q xs
All-weaken P Q [] h a = tt
All-weaken P Q (x ∷ xs) h a = (h x a.0, All-weaken P Q xs h a.1)

-- A step that only takes timers away, and sends nothing or SIGTERM.
fewer-IsGentle :
    (p : ℕ × Timer → Bool) (m m' : Manager)
    → IsGentle m
    → m'.armed ≡ filter p m.armed
    → ((x : ℕ) → x < m.next_timer → x < m'.next_timer)
    → All (λ s. is_sigterm s.1 ≡ true) m'.signals
    → IsGentle m'
fewer-IsGentle p m m' v e n s = record {
  counted = rw e (
      All-filter (λ t. t.0 < m'.next_timer) p m.armed
        (All-weaken _ (λ t. t.0 < m'.next_timer) m.armed (λ t h. n t.0 h) v.counted));
  waits = rw e (All-filter (λ t. is_wait t.1 ≡ true) p m.armed v.waits);
  gentle = s;
}

clear_timeouts-IsGentle : (t : String) (m : Manager) → IsGentle m → IsGentle (clear_timeouts t m)
clear_timeouts-IsGentle t m v =
    let k = clear_timeouts_keeps t m in
    fewer-IsGentle (λ x. not (tracks t m x.0)) m (clear_timeouts t m) v (clear_timeouts-armed t m)
      (λ x h. rw k.3 h) (rw k.4 v.gentle)

pub abandon-IsGentle : (t : String) (m : Manager) → IsGentle m → IsGentle (abandon t m)
unfolding abandon forget
abandon-IsGentle t m v =
    let g = clear_timeouts-IsGentle t m v in
    record { counted = g.counted; waits = g.waits; gentle = g.gentle }

pub stop-IsGentle :
    (sent : Bool) (t : String) (child : ℕ) (m : Manager)
    → IsGentle m
    → IsGentle (finish_stop sent t child m)
stop-IsGentle sent t child m v =
    fewer-IsGentle (λ x. not (tracks t m x.0)) m (finish_stop sent t child m) v
      (stop-armed sent t child m v.counted)
      (λ x h. rw (stop-next sent t child m) (ground (arith, h)))
      (rw (stop-signals sent t child m) (elim (Bool-cases (m.killed child)) [
        | inl e ↦ rw e v.gentle
        | inr e ↦
            rw e (All-snoc (λ s. is_sigterm s.1 ≡ true) m.signals (child, sigterm) v.gentle refl)
      ]))

pub launch-IsGentle :
    (t : String) (config : Config) (child : ℕ) (m : Manager)
    → IsGentle m
    → IsGentle (launch t config child m)
unfolding launch track_timeout
launch-IsGentle t config child m v = record {
  counted = (
    omega arith,
    All-weaken _ (λ x. x.0 < suc m.next_timer) m.armed (λ x h. omega (arith, h)) v.counted,
  );
  waits = (refl, v.waits);
  gentle = v.gentle;
}

pub clear_timeout-IsGentle : (id : ℕ) (m : Manager) → IsGentle m → IsGentle (clear_timeout id m)
unfolding clear_timeout
clear_timeout-IsGentle id m v =
    fewer-IsGentle (λ t. not (eqb t.0 id)) m (clear_timeout id m) v refl (λ x h. h) v.gentle

-- The timer that fires is one that waits.
found-waits :
    (id : ℕ) (xs : List (ℕ × Timer))
    → All (λ t. is_wait t.1 ≡ true) xs
    → (y : ℕ × Timer) → find? (λ t. eqb t.0 id) xs ≡ some y
    → is_wait y.1 ≡ true
found-waits id [] a y h = cc
found-waits id (x ∷ xs) a y h = ground (arith, found-waits id xs a.1 y, a.0)

pub fire-IsGentle : (sent : Bool) (id : ℕ) (m : Manager) → IsGentle m → IsGentle (fire sent id m)
unfolding fire
fire-IsGentle sent id m v = elim (Option-cases (find? (λ t. eqb t.0 id) m.armed)) [
  | inl e ↦ rw (e, fire) v
  | inr ((i, init_timeout t), e) ↦ rw (e, fire) (clear_timeout-IsGentle id m v)
  | inr ((i, kill_timeout child), e) ↦ cc (found-waits id m.armed v.waits (i, kill_timeout child) e)
]

act-IsGentle : (a : Action) (m : Manager) → IsGentle m → IsGentle (act a m)
unfolding act handle_process_close abandon
act-IsGentle (launched t config child) m v = launch-IsGentle t config child m v
act-IsGentle (wait_over id) m v = clear_timeout-IsGentle id m v
act-IsGentle (stopped sent t child) m v = stop-IsGentle sent t child m v
act-IsGentle (failed t) m v = abandon-IsGentle t m v
act-IsGentle (exited t) m v = abandon-IsGentle t m v
act-IsGentle (fired sent id) m v = fire-IsGentle sent id m v

act_all-IsGentle : (steps : List Action) (m : Manager) → IsGentle m → IsGentle (act_all steps m)
unfolding act_all
act_all-IsGentle [] m v = v
act_all-IsGentle (a ∷ rest) m v = act_all-IsGentle rest (act a m) (act-IsGentle a m v)

-- In every state that the manager reaches, whatever starts, ends, fails or is stopped and whichever
-- timers fire: the armed timers have numbers that were given out, each of them ends a wait and none
-- kills a child, and every signal that was sent was SIGTERM, never SIGKILL.
pub act_all-new-IsGentle : (steps : List Action) → IsGentle (act_all steps new)
unfolding new
act_all-new-IsGentle steps =
    act_all-IsGentle steps new (record { counted = tt; waits = tt; gentle = tt })
