-- ===== src/Auth.antt =====
-- web/cui/src/middleware/auth.ts: bearer tokens, and the limit on failed attempts of an address.
-- `Date.now()` is read anew in each helper, so a request has four readings of the clock, in
-- milliseconds. Responses are verdicts.
pub mod Access
pub mod Limit
use private_agent_platform.Base.{
  ℕ, ◌+◌, String, Bool, true, false, not, ◌&&◌, List, [], ◌∷◌, Option, none, some, if◌then◌else◌,
  leb, ltb, filter, codes, is_truthy, text_eq, strip_prefix,
}
use private_agent_platform.JsMap
use private_agent_platform.JsMap.{JsMap}

pub record Attempts : Type 0 where
  pub attempts : ℕ
  pub reset_time : ℕ

abbrev pub Store : Type 0
Store = JsMap Attempts

abbrev pub rate_limit_window : ℕ
rate_limit_window = 1000

abbrev pub max_attempts : ℕ
max_attempts = 10

-- The expired entries go.
pub cleanup_rate_limit : ℕ → Store → Store
cleanup_rate_limit now = filter (λ e. not (leb e.1.reset_time now))

unfoldable clear_rate_limit_store : Store → Store
clear_rate_limit_store store = []

-- The readings of the clock: in the two clean-ups, in the test and in the record.
pub record Clock : Type 0 where
  pub cleaned : ℕ
  pub checked : ℕ
  pub cleaned_again : ℕ
  pub recorded : ℕ

pub is_rate_limited : ℕ → ℕ → String → Store → Store × Bool
unfolding cleanup_rate_limit
is_rate_limited cleaned checked ip store =
    let store' = cleanup_rate_limit cleaned store in
    (
      store',
      elim (JsMap.get ip store') as (λ x. Bool) [
        | none ↦ false
        | some entry ↦ leb max_attempts entry.attempts && ltb checked entry.reset_time
      ],
    )

pub record_failed_attempt : ℕ → ℕ → String → Store → Store
unfolding cleanup_rate_limit
record_failed_attempt cleaned now ip store =
    let store' = cleanup_rate_limit cleaned store in
    let fresh : Attempts = record { attempts = 1; reset_time = now + rate_limit_window } in
    elim (JsMap.get ip store') [
      | none ↦ JsMap.set ip fresh store'
      | some entry ↦
          if leb entry.reset_time now
          then JsMap.set ip fresh store'
          else JsMap.set ip (record entry { attempts = entry.attempts + 1 }) store'
    ]

pub data Verdict : Type 0 where
  next : Verdict
  too_many_attempts : Verdict
  unauthorized : Verdict

-- The token in the header, if it is a bearer header.
unfoldable pub bearer_token : Option String → Option (List ℕ)
bearer_token none = none
bearer_token (some h) = if is_truthy h then strip_prefix (codes "Bearer ") (codes h) else none

-- `tokenOverride ?? config.authToken`; none where the configuration cannot be read, which throws.
abbrev pub expected_token : Option String → Option String → Option String
expected_token (some t) config = some t
expected_token none config = config

-- Whether the request carries the expected token.
pub is_authorized : Option String → Option String → Bool
unfolding bearer_token
is_authorized header expected = elim (bearer_token header) [
  | none ↦ false
  | some token ↦ elim expected [ none ↦ false | some e ↦ text_eq token (codes e) ]
]

-- `skipped` is the exemption of the test environment.
unfoldable pub authenticate :
    Bool → Clock → String → Option String → Option String → Option String → Store → Store × Verdict
unfolding is_rate_limited record_failed_attempt is_authorized
authenticate skipped clock ip header token_override config store =
    if skipped
    then (store, next)
    else (let (store', limited) = is_rate_limited clock.cleaned clock.checked ip store in
        if limited
        then (store', too_many_attempts)
        else if is_authorized header (expected_token token_override config)
        then (store', next)
        else (record_failed_attempt clock.cleaned_again clock.recorded ip store', unauthorized))
