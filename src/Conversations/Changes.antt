-- ===== src/Conversations/Changes.antt =====
-- What an update of a session answers and stores (web/cui/src/routes/conversation.routes.ts), by a table
-- of the refusals that is written out apart from the code.
use private_agent_platform.Base.{
  ℕ, String, Bool, true, false, ◌||◌, List, Option, none, some, if◌then◌else◌, ltb, any, ◌==◌, ◌≡◌,
}
use private_agent_platform.JsMap
use private_agent_platform.Types.{SessionInfo}
use private_agent_platform.SessionInfo.{Updates}
use private_agent_platform.SessionInfo.Table.{Database}
use private_agent_platform.SessionInfo.Merged.{Answers, row_after}
use private_agent_platform.Conversations.Sessions.{
  Reply, json, fail, CustomName, undefined, null, string, other_value, UpdateRequest,
}

abbrev of_fields :
    CustomName
    → Option Bool
    → Option Bool
    → Option String
    → Option String
    → Option String
    → UpdateRequest
of_fields name pinned archived continuation head mode = record {
  custom_name = name;
  pinned = pinned;
  archived = archived;
  continuation_session_id = continuation;
  initial_commit_head = head;
  permission_mode = mode;
}

module _ (units : String → ℕ) (trim : String → String) where
  -- The status for a name that is refused.
  abbrev refused_name : CustomName → Option ℕ
  refused_name undefined = none
  refused_name null = some 500
  refused_name (string s) = if ltb 200 (units s) then some 400 else none
  refused_name (other_value true) = some 400
  refused_name (other_value false) = some 500

  abbrev refused_mode : Option String → Option ℕ
  refused_mode none = none
  refused_mode (some mode) =
      if ("acceptEdits" == mode)
        || ("bypassPermissions" == mode)
        || ("default" == mode)
        || ("plan" == mode)
      then none
      else some 400

  abbrev first_of : Option ℕ → Option ℕ → Option ℕ
  first_of (some status) o = some status
  first_of none o = o

  -- The status with which an update is refused, if it is.
  abbrev pub refusal : Option (List String) → String → UpdateRequest → Option ℕ
  refusal listed id u = if (id == "") || (trim id == "") then some 400 else elim listed [
    | none ↦ some 500
    | some ids ↦
        if any (λ i. i == id) ids
        then first_of (refused_name u.custom_name) (refused_mode u.permission_mode)
        else some 404
  ]

  abbrev pub name_of : CustomName → Option String
  name_of (string s) = some (trim s)
  name_of _ = none

  -- The fields that the request sets, with the name as it is stored.
  abbrev pub sent : Option String → UpdateRequest → Updates
  sent name u = record {
    custom_name = name;
    created_at = none;
    updated_at = none;
    version = none;
    pinned = u.pinned;
    archived = u.archived;
    continuation_session_id = u.continuation_session_id;
    initial_commit_head = u.initial_commit_head;
    permission_mode = u.permission_mode;
    session_type = none;
  }

  module _ {D : Type 0} (db : Database D) where
    abbrev pub Outcome : String → String → Updates → D → Option ℕ → D × Reply SessionInfo → Type 0
    Outcome now id changes d (some status) x = x ≡ (d, fail status)
    Outcome now id changes d none x =
        let found = JsMap.get id (db.rows d) in
        (info : SessionInfo) × (x.1 ≡ json info)
        × Answers now changes found info
        × ((j : String)
            → JsMap.get j (db.rows x.0)
              ≡ (if id == j then some (row_after found info) else JsMap.get j (db.rows d)))
