-- ===== src/SessionInfo.antt =====
-- web/cui/src/services/session-info-service.ts: what is stored about each session. The database is a
-- parameter (SessionInfo/Table.antt). Where a method logs an error and throws, the model gives none.
pub mod Table
pub mod Batches
pub mod Sessions
pub mod Counts
pub mod Changes
pub mod Stored
pub mod Merged
use private_agent_platform.Base.{
  ℕ, ◌+◌, String, Bool, true, false, not, ◌&&◌, List, [], ◌∷◌, Option, none, some, ◌==◌,
  if◌then◌else◌, is_truthy, eqb, leb, length,
}
use private_agent_platform.JsMap
use private_agent_platform.JsMap.{JsMap}
use private_agent_platform.Types.{SessionInfo}
use private_agent_platform.SessionInfo.Table.{Row, Database}

-- `Partial<SessionInfo>`: the fields that are present.
pub record Updates : Type 0 where
  pub custom_name : Option String
  pub created_at : Option String
  pub updated_at : Option String
  pub version : Option ℕ
  pub pinned : Option Bool
  pub archived : Option Bool
  pub continuation_session_id : Option String
  pub initial_commit_head : Option String
  pub permission_mode : Option String
  pub session_type : Option String

abbrev pub no_updates : Updates
no_updates = record {
  custom_name = none;
  created_at = none;
  updated_at = none;
  version = none;
  pinned = none;
  archived = none;
  continuation_session_id = none;
  initial_commit_head = none;
  permission_mode = none;
  session_type = none;
}

abbrev pub or_old {ℓ} : {A : Type ℓ} → Option A → A → A
or_old none a = a
or_old (some b) a = b

-- `{ ...info, ...updates }`
abbrev pub merge : SessionInfo → Updates → SessionInfo
merge info u = record {
  custom_name = or_old u.custom_name info.custom_name;
  created_at = or_old u.created_at info.created_at;
  updated_at = or_old u.updated_at info.updated_at;
  version = or_old u.version info.version;
  pinned = or_old u.pinned info.pinned;
  archived = or_old u.archived info.archived;
  continuation_session_id = or_old u.continuation_session_id info.continuation_session_id;
  initial_commit_head = or_old u.initial_commit_head info.initial_commit_head;
  permission_mode = or_old u.permission_mode info.permission_mode;
  session_type = or_old u.session_type info.session_type;
}

-- `mapRow`
unfoldable pub map_row : Row → SessionInfo
map_row row = record {
  custom_name = row.custom_name;
  created_at = row.created_at;
  updated_at = row.updated_at;
  version = row.version;
  pinned = not (eqb row.pinned 0);
  archived = not (eqb row.archived 0);
  continuation_session_id = row.continuation_session_id;
  initial_commit_head = row.initial_commit_head;
  permission_mode = row.permission_mode;
  session_type = if is_truthy row.session_type then row.session_type else "user";
}

abbrev flag : Bool → ℕ
flag b = if b then 1 else 0

abbrev pub row_of : SessionInfo → Row
row_of info = record {
  custom_name = info.custom_name;
  created_at = info.created_at;
  updated_at = info.updated_at;
  version = info.version;
  pinned = flag info.pinned;
  archived = flag info.archived;
  continuation_session_id = info.continuation_session_id;
  initial_commit_head = info.initial_commit_head;
  permission_mode = info.permission_mode;
  session_type = info.session_type;
}

abbrev pub default_session : String → SessionInfo
default_session now = record {
  custom_name = "";
  created_at = now;
  updated_at = now;
  version = 4;
  pinned = false;
  archived = false;
  continuation_session_id = "";
  initial_commit_head = "";
  permission_mode = "default";
  session_type = "user";
}

-- The assignments of the UPDATE statement: all columns but the key and `created_at`.
abbrev pub assign : SessionInfo → Row → Row
assign info row = record (row_of info) { created_at = row.created_at }

-- The loop over the rows.
unfoldable pub info_of_rows : JsMap Row → JsMap SessionInfo → JsMap SessionInfo
unfolding map_row
info_of_rows [] result = result
info_of_rows ((id, row) ∷ rows) result = info_of_rows rows (JsMap.set id (map_row row) result)

module _ {D : Type 0} (db : Database D) where
  -- `setMetadataStmt` on the key that most methods write.
  abbrev touch : String → D → D
  touch now d = db.set_metadata "last_updated" now d

  -- An insertion that fails leads to the `catch`, which answers the default.
  unfoldable pub get_session_info : String → String → D → D × SessionInfo
  unfolding map_row
  get_session_info now id d = elim (JsMap.get id (db.rows d)) [
    | some row ↦ (d, map_row row)
    | none ↦ elim (db.insert id (row_of (default_session now)) d) [
      | none ↦ (d, default_session now)
      | some d' ↦ (touch now d', default_session now)
    ]
  ]

  unfoldable pub update_session_info : String → String → Updates → D → Option (D × SessionInfo)
  unfolding map_row
  update_session_info now id u d = elim (JsMap.get id (db.rows d)) [
    | some row ↦
        let updated = record (merge (map_row row) u) { updated_at = now } in
        some (touch now (db.update (λ k r. k == id) (assign updated) d).0, updated)
    | none ↦
        let new_session = merge (default_session now) u in
        elim (db.insert id (row_of new_session) d) [
          | none ↦ none
          | some d' ↦ some (touch now d', new_session)
        ]
  ]

  pub update_custom_name : String → String → String → D → Option (D × SessionInfo)
  unfolding update_session_info
  update_custom_name now id name d =
      update_session_info now id (record no_updates { custom_name = some name }) d

  update_session_type : String → String → String → D → Option (D × SessionInfo)
  unfolding update_session_info
  update_session_type now id kind d =
      update_session_info now id (record no_updates { session_type = some kind }) d

  unfoldable pub delete_session : String → String → D → D
  delete_session now id d =
      let (d', changes) = db.delete (λ k r. k == id) d in if leb 1 changes then touch now d' else d'

  unfoldable pub get_all_session_info : D → JsMap SessionInfo
  unfolding info_of_rows
  get_all_session_info d = info_of_rows (db.rows d) []

  -- The number of sessions and the time of the last change, of which `now` is the default.
  unfoldable pub get_stats : String → D → ℕ × String
  get_stats now d = (
    length (db.rows d),
    elim (JsMap.get "last_updated" (db.metadata d)) [
      | none ↦ now
      | some t ↦ if is_truthy t then t else now
    ],
  )
