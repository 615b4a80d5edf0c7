-- ===== src/Auth/Limit.antt =====
-- Lemmas on runs of requests against the attempt counter of auth.ts.
use private_agent_platform.Base.{
  ℕ, ◌+◌, ◌-◌, ◌≤◌, ◌<◌, String, Bool, false, not, List, [], ◌∷◌, Option, none, some, ◌==◌, ◌≡◌,
  refl, ◌∙◌, ap, inl, inr, if◌then◌else◌, leb, eq_iff, eq_refl, arith, All, Option-cases,
  Bool-cases,
}
use private_agent_platform.JsMap
use private_agent_platform.JsMap.Index.{keep, get-filter, filter-IsDistinct}
use private_agent_platform.JsMap.Laws.{get-set, IsDistinct, set-IsDistinct}
use private_agent_platform.Auth.{
  Attempts, Store, Clock, Verdict, next, too_many_attempts, unauthorized, authenticate,
  is_rate_limited, record_failed_attempt, cleanup_rate_limit, max_attempts, rate_limit_window,
}

abbrev is_live : ℕ → Attempts → Bool
is_live now e = not (leb e.reset_time now)

get-cleanup :
    (now : ℕ) (ip : String) (store : Store)
    → IsDistinct store
    → JsMap.get ip (cleanup_rate_limit now store) ≡ keep (is_live now) (JsMap.get ip store)
unfolding cleanup_rate_limit
get-cleanup now ip store d = get-filter (is_live now) ip store d

cleanup-IsDistinct :
    (now : ℕ) (store : Store) → IsDistinct store → IsDistinct (cleanup_rate_limit now store)
unfolding cleanup_rate_limit
cleanup-IsDistinct now store d = filter-IsDistinct (is_live now) store d

-- The entry that a failed attempt leaves, from the one that it found.
abbrev recorded_entry : ℕ → Option Attempts → Attempts
recorded_entry now none = record { attempts = 1; reset_time = now + rate_limit_window }
recorded_entry now (some e) =
    if leb e.reset_time now
    then record { attempts = 1; reset_time = now + rate_limit_window }
    else record e { attempts = e.attempts + 1 }

record_failed-entry :
    (cleaned now : ℕ) (ip : String) (store : Store)
    → record_failed_attempt cleaned now ip store
      ≡ JsMap.set ip
          (recorded_entry now (JsMap.get ip (cleanup_rate_limit cleaned store)))
          (cleanup_rate_limit cleaned store)
unfolding record_failed_attempt
record_failed-entry cleaned now ip store =
    elim (Option-cases (JsMap.get ip (cleanup_rate_limit cleaned store))) [
      | inl e ↦ rw (e, record_failed_attempt)
      | inr (x, e) ↦ rw (e, record_failed_attempt) (ground arith)
    ]

-- An entry whose window has not passed at any reading of the clock below `limit`.
abbrev IsLate : ℕ → Option Attempts → Type 0
IsLate limit none = Unit
IsLate limit (some e) = limit ≤ e.reset_time

-- How many more failures the entry admits.
abbrev allowed : Option Attempts → ℕ
allowed none = max_attempts
allowed (some e) = max_attempts - e.attempts

keep-late :
    (now limit : ℕ) (o : Option Attempts) → now < limit → IsLate limit o → keep (is_live now) o ≡ o
keep-late now limit none h l = refl
keep-late now limit (some e) h l = ground arith

-- All readings lie in the window that begins at `t`.
abbrev IsWithin : ℕ → Clock → Type 0
IsWithin t c =
    (c.cleaned < t + rate_limit_window)
    × (c.checked < t + rate_limit_window)
    × (c.cleaned_again < t + rate_limit_window)
    × (c.recorded < t + rate_limit_window)
    × (t ≤ c.recorded)

abbrev failures : Verdict → ℕ
failures next = 0
failures too_many_attempts = 0
failures unauthorized = 1

module _ (override config : Option String) where
  -- Requests, each with its clock, address and header, in the order in which they are served. The
  -- answer is the number of requests of `ip` that were refused as unauthorized.
  pub count_failures : String → List (Clock × String × Option String) → Store → ℕ
  count_failures ip [] store = 0
  count_failures ip ((c, ip', header) ∷ rest) store =
      let (store', v) = authenticate false c ip' header override config store in
      let more = count_failures ip rest store' in if ip' == ip then failures v + more else more

module _ (override config : Option String) (t : ℕ) where
  own_entry_cases :
      (c : Clock) (ip : String) (header : Option String) (store : Store)
      → IsWithin t c
      → (found : Option Attempts) → IsLate (t + rate_limit_window) found
      → JsMap.get ip (cleanup_rate_limit c.cleaned store) ≡ found
      → JsMap.get ip
          (record_failed_attempt c.cleaned_again c.recorded ip (cleanup_rate_limit c.cleaned store))
        ≡ some (recorded_entry c.recorded found)
      → let (store', v) = authenticate false c ip header override config store in
        IsLate (t + rate_limit_window) (JsMap.get ip store')
        × (failures v + allowed (JsMap.get ip store') ≤ allowed found)
  unfolding authenticate is_rate_limited
  own_entry_cases c ip header store w none l g r = ground arith
  own_entry_cases c ip header store w (some e) l g r = ground arith

  -- The entry of the address that asks, after its request.
  own_entry :
      (c : Clock) (ip : String) (header : Option String) (store : Store)
      → IsDistinct store
      → IsWithin t c
      → IsLate (t + rate_limit_window) (JsMap.get ip store)
      → let (store', v) = authenticate false c ip header override config store in
        IsLate (t + rate_limit_window) (JsMap.get ip store')
        × (failures v + allowed (JsMap.get ip store') ≤ allowed (JsMap.get ip store))
  unfolding authenticate is_rate_limited
  own_entry c ip header store d w l =
      let s₁ = cleanup_rate_limit c.cleaned store in
      let s₂ = cleanup_rate_limit c.cleaned_again s₁ in
      let limit = t + rate_limit_window in
      let g₁ : JsMap.get ip s₁ ≡ JsMap.get ip store =
        get-cleanup c.cleaned ip store d ∙ keep-late c.cleaned limit (JsMap.get ip store) w.0 l in
      let g₂ : JsMap.get ip s₂ ≡ JsMap.get ip store =
        get-cleanup c.cleaned_again ip s₁ (cleanup-IsDistinct c.cleaned store d)
        ∙ ap (keep (is_live c.cleaned_again)) g₁
        ∙ keep-late c.cleaned_again limit (JsMap.get ip store) w.2 l in
      own_entry_cases c ip header store w (JsMap.get ip store) l g₁ (
        ap (JsMap.get ip) (record_failed-entry c.cleaned_again c.recorded ip s₁)
        ∙ get-set ip ip (recorded_entry c.recorded (JsMap.get ip s₂)) s₂
        ∙ ap
            (λ b. if b then some (recorded_entry c.recorded (JsMap.get ip s₂)) else JsMap.get ip s₂)
            (eq_refl ip)
        ∙ ap (λ o. some (recorded_entry c.recorded o)) g₂)

  -- The entry of another address is only cleaned up.
  other_entry :
      (c : Clock) (ip ip' : String) (header : Option String) (store : Store)
      → IsDistinct store
      → IsWithin t c
      → IsLate (t + rate_limit_window) (JsMap.get ip store)
      → (ip' == ip) ≡ false
      → JsMap.get ip (authenticate false c ip' header override config store).0 ≡ JsMap.get ip store
  unfolding authenticate is_rate_limited
  other_entry c ip ip' header store d w l ne = ground (
    arith,
    record_failed-entry c.cleaned_again c.recorded ip' (cleanup_rate_limit c.cleaned store),
    get-cleanup c.cleaned ip store d,
    cleanup-IsDistinct c.cleaned store d,
    get-cleanup c.cleaned_again ip (cleanup_rate_limit c.cleaned store),
    keep-late c.cleaned (t + rate_limit_window) (JsMap.get ip store),
    keep-late c.cleaned_again (t + rate_limit_window) (JsMap.get ip store),
    get-set ip' ip
        (recorded_entry c.recorded
          (JsMap.get ip' (cleanup_rate_limit c.cleaned_again (cleanup_rate_limit c.cleaned store))))
        (cleanup_rate_limit c.cleaned_again (cleanup_rate_limit c.cleaned store)),
  )

  authenticate-IsDistinct :
      (c : Clock) (ip : String) (header : Option String) (store : Store)
      → IsDistinct store
      → IsDistinct (authenticate false c ip header override config store).0
  unfolding authenticate is_rate_limited
  authenticate-IsDistinct c ip header store d =
      let s₁ = cleanup_rate_limit c.cleaned store in
      let s₂ = cleanup_rate_limit c.cleaned_again s₁ in
      let d₁ = cleanup-IsDistinct c.cleaned store d in
      let d₂ = cleanup-IsDistinct c.cleaned_again s₁ d₁ in
      let d₃ = set-IsDistinct ip (recorded_entry c.recorded (JsMap.get ip s₂)) s₂ d₂ in
      let e = record_failed-entry c.cleaned_again c.recorded ip s₁ in
      ground (arith, (rw (← e) at d₃))

  count_from :
      (ip : String) (requests : List (Clock × String × Option String)) (store : Store)
      → IsDistinct store
      → All (λ q. IsWithin t q.0) requests
      → IsLate (t + rate_limit_window) (JsMap.get ip store)
      → count_failures override config ip requests store ≤ allowed (JsMap.get ip store)
  unfolding count_failures
  count_from ip [] store d w l = omega arith
  count_from ip ((c, ip', header) ∷ rest) store d w l =
      let store' = (authenticate false c ip' header override config store).0 in
      let d' = authenticate-IsDistinct c ip' header store d in
      elim (Bool-cases (ip' == ip)) [
        | inl e ↦
            let same = (eq_iff ip' ip).0 e in
            let own = own_entry c ip' header store d w.0 (rw same l) in
            let more = count_from ip rest store' d' w.1 (rw (← same) own.0) in
            rw e (
              omega (
                arith,
                own.1,
                more,
                ap (λ k. allowed (JsMap.get k store')) same,
                ap (λ k. allowed (JsMap.get k store)) same,
              ))
        | inr e ↦
            let other = other_entry c ip ip' header store d w.0 l e in
            let more = count_from ip rest store' d' w.1 (rw other l) in
            rw e (omega (arith, more, ap allowed other))
      ]

-- Within one window of a second, starting from a store that holds nothing of the address, at most
-- ten requests of an address are refused as unauthorized, however the requests of other addresses
-- are interleaved.
pub failures-le-max :
    (override config : Option String) (t : ℕ) (ip : String)
    (requests : List (Clock × String × Option String)) (store : Store)
    → IsDistinct store
    → JsMap.get ip store ≡ none
    → All (λ q. IsWithin t q.0) requests
    → count_failures override config ip requests store ≤ max_attempts
failures-le-max override config t ip requests store d e w =
    let bound = count_from override config t ip requests store d w (rw e tt) in
    omega (arith, bound, ap allowed e)
