-- ===== src/Conversations/Sessions.antt =====
-- web/cui/src/routes/conversation.routes.ts: the endpoints that rename and update a session, and those
-- on several sessions. An error keeps its HTTP status; one that is thrown without a status, a
-- TypeError too, is answered with 500. `units` is the length of a string and `trim` its trimming. What
-- the history answers is an argument.
use private_agent_platform.Base.{
  ℕ, String, Bool, true, false, not, ◌||◌, ◌==◌, List, Option, none, some, if◌then◌else◌, ltb, any,
}
use private_agent_platform.JsonLines.{is_empty}
use private_agent_platform.Types.{SessionInfo}
use private_agent_platform.SessionInfo.Table.{Database}
use private_agent_platform.SessionInfo.{
  Updates, no_updates, update_session_info, update_custom_name,
}
use private_agent_platform.SessionInfo.Batches.{batch_archive_sessions, archive_all_sessions}
use private_agent_platform.Conversations.{is_valid_mode}

pub data Reply (A : Type 0) : Type 0 where
  json : A → Reply A
  fail : ℕ → Reply A

-- The field `customName`. Of a value that is no string, neither undefined nor null, only this matters:
-- whether its `length` compares greater than 200.
pub data CustomName : Type 0 where
  undefined null : CustomName
  string : String → CustomName
  other_value : Bool → CustomName

-- The body of an update, which is taken to be an object. The fields but `customName` have the types
-- that it declares; a permission mode of another type is refused as a text that is not listed.
pub record UpdateRequest : Type 0 where
  pub custom_name : CustomName
  pub pinned : Option Bool
  pub archived : Option Bool
  pub continuation_session_id : Option String
  pub initial_commit_head : Option String
  pub permission_mode : Option String

module _ (units : String → ℕ) (trim : String → String) where
  abbrev pub is_blank : String → Bool
  is_blank s = (s == "") || (trim s == "")

  -- `customName !== undefined && customName.length > 200`; none where it throws.
  abbrev is_long : CustomName → Option Bool
  is_long undefined = some false
  is_long null = none
  is_long (string s) = some (ltb 200 (units s))
  is_long (other_value long) = some long

  -- `customName.trim()`, unless it is undefined; none where it throws.
  abbrev pub trimmed : CustomName → Option (Option String)
  trimmed undefined = some none
  trimmed null = none
  trimmed (string s) = some (some (trim s))
  trimmed (other_value long) = none

  abbrev session_updates : Option String → UpdateRequest → Updates
  session_updates name u = record no_updates {
    custom_name = name;
    pinned = u.pinned;
    archived = u.archived;
    continuation_session_id = u.continuation_session_id;
    initial_commit_head = u.initial_commit_head;
    permission_mode = u.permission_mode;
  }

  module _ {D : Type 0} (db : Database D) where
    -- The end of a rename, with the trimmed name.
    abbrev store_name : String → String → String → D → D × Reply String
    store_name now id name d = elim (update_custom_name db now id name d) [
      | none ↦ (d, fail 500)
      | some (d', info) ↦ (d', json name)
    ]

    -- `PUT /:sessionId/rename`. `known`: whether the history finds the session; where its reading
    -- fails it finds none.
    unfoldable rename : Bool → String → String → CustomName → D → D × Reply String
    rename known now id undefined d = (d, fail 400)
    rename known now id null d = (d, fail 400)
    rename known now id (string s) d =
        if is_blank id || ltb 200 (units s)
        then (d, fail 400)
        else if known
        then store_name now id (trim s) d
        else (d, fail 404)
    rename known now id (other_value long) d =
        if is_blank id || long
        then (d, fail 400)
        else if known
        then (d, fail 500)
        else (d, fail 404)

    -- The check of the mode and the call of the service.
    unfoldable pub apply_updates :
        String → String → Option String → UpdateRequest → D → D × Reply SessionInfo
    unfolding update_session_info
    apply_updates now id name u d =
        if not (is_valid_mode u.permission_mode)
        then (d, fail 400)
        else elim (update_session_info db now id (session_updates name u) d) [
          | none ↦ (d, fail 500)
          | some (d', info) ↦ (d', json info)
        ]

    -- The update of a session that is there.
    unfoldable pub update_known : String → String → UpdateRequest → D → D × Reply SessionInfo
    unfolding apply_updates
    update_known now id u d = elim (is_long u.custom_name) [
      | none ↦ (d, fail 500)
      | some true ↦ (d, fail 400)
      | some false ↦ elim (trimmed u.custom_name) [
        | none ↦ (d, fail 500)
        | some name ↦ apply_updates now id name u d
      ]
    ]

    -- `PUT /:sessionId/update`. `listed`: the ids of all conversations, none where their
    -- listing throws.
    unfoldable pub update :
        Option (List String) → String → String → UpdateRequest → D → D × Reply SessionInfo
    unfolding update_known
    update listed now id u d = if is_blank id then (d, fail 400) else elim listed [
      | none ↦ (d, fail 500)
      | some ids ↦ if any (λ i. i == id) ids then update_known now id u d else (d, fail 404)
    ]

module _ {D : Type 0} (db : Database D) where
  -- `POST /batch-archive`
  unfoldable batch_archive : String → Option (List String) → D → D × Reply ℕ
  unfolding batch_archive_sessions
  batch_archive now none d = (d, fail 400)
  batch_archive now (some ids) d =
      if is_empty ids
      then (d, fail 400)
      else (let (d', done) = batch_archive_sessions db now ids d in (d', json done))

  -- `POST /archive-all`
  unfoldable archive_all : String → D → D × Reply ℕ
  unfolding archive_all_sessions
  archive_all now d = let (d', done) = archive_all_sessions db now d in (d', json done)
