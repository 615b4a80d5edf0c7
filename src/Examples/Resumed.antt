-- ===== src/Examples/Resumed.antt =====
-- A run of Conversations.antt over the table of Examples/Database.antt.
use private_agent_platform.Base.{[], ◌∷◌, ℕ, String, true, none, some, codes, length, ◌≡◌, refl}
use private_agent_platform.JsMap
use private_agent_platform.Status.{new}
use private_agent_platform.Status.Bijection.{new-IsMatched}
use private_agent_platform.SessionInfo.{row_of, default_session}
use private_agent_platform.Conversations.{
  StartRequest, SystemInit, invalid, validate, prepare_start, finish_start,
}
use private_agent_platform.Conversations.Sessions.{string, UpdateRequest}
use private_agent_platform.Conversations.Changes.{refusal}
use private_agent_platform.Conversations.Resumed.{Continues, finish_start-inherits}
use private_agent_platform.Examples.Database.{memory, memory-IsSql, store}

abbrev request : StartRequest
request = record {
  working_directory = some "/work";
  initial_prompt = some "go on";
  model = none;
  allowed_tools = none;
  disallowed_tools = none;
  system_prompt = none;
  permission_mode = none;
  resumed_session_id = some "s1";
}

abbrev started : SystemInit
started = record { session_id = "s9"; cwd = "/work"; model = "m" }

stored : JsMap.get "s1" store.table ≡ some (row_of (default_session "t0"))
unfolding JsMap.get
stored = refl

finish_start-inherits_example :
    let (d₁, config) = prepare_start memory "now" (λ id. none) "/work" "go on" request store in
    (config.permission_mode ≡ some "default")
    × Continues memory memory-IsSql "t9" started "s1"
        (row_of (default_session "t0"))
        store
        (finish_start memory "now" "t9" started config request (d₁, new))
finish_start-inherits_example =
    finish_start-inherits memory memory-IsSql "now" "t9" "/work" "go on" (λ id. none) started
      request store new "s1" (row_of (default_session "t0")) new-IsMatched refl refl stored refl
      refl

mode_refused :
    validate (record request { permission_mode = some "root" })
    ≡ invalid "INVALID_PERMISSION_MODE" 400
unfolding validate
mode_refused = refl

-- The texts here have no space around them, and are measured by their codes.
abbrev units : String → ℕ
units s = length (codes s)

abbrev pinned : UpdateRequest
pinned = record {
  custom_name = string "mine";
  pinned = some true;
  archived = none;
  continuation_session_id = none;
  initial_commit_head = none;
  permission_mode = some "plan";
}

accepted : refusal units (λ s. s) (some ("s1" ∷ [])) "s1" pinned ≡ none
accepted = refl
