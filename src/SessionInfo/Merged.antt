-- ===== src/SessionInfo/Merged.antt =====
-- What an update of a session makes of each field (web/cui/src/services/session-info-service.ts), written
-- out apart from the code.
use private_agent_platform.Base.{
  String, Bool, true, false, not, Option, none, some, ◌==◌, if◌then◌else◌, is_truthy, eqb, ◌≡◌,
  refl, ◌∙◌, ap,
}
use private_agent_platform.JsMap
use private_agent_platform.Types.{SessionInfo}
use private_agent_platform.SessionInfo.Table.{Row, Database, IsSql}
use private_agent_platform.SessionInfo.{
  Updates, or_old, merge, map_row, default_session, get_session_info, update_session_info,
}
use private_agent_platform.SessionInfo.Sessions.{Updated, answer, update_session_info-Updated}

-- A field of the answer, by that of the update and that of the session before.
abbrev Takes : {A : Type 0} → Option A → A → A → Type 0
Takes none old new = new ≡ old
Takes (some given) old new = new ≡ given

or_old-Takes : {A : Type 0} (o : Option A) (old : A) → Takes o old (or_old o old)
or_old-Takes none old = refl
or_old-Takes (some given) old = refl

-- All fields but the time of the last update.
pub record IsMerged (u : Updates) (old new : SessionInfo) : Type 0 where
  pub custom_name : Takes u.custom_name old.custom_name new.custom_name
  pub created_at : Takes u.created_at old.created_at new.created_at
  pub version : Takes u.version old.version new.version
  pub pinned : Takes u.pinned old.pinned new.pinned
  pub archived : Takes u.archived old.archived new.archived
  pub continuation_session_id :
      Takes u.continuation_session_id old.continuation_session_id new.continuation_session_id
  pub initial_commit_head :
      Takes u.initial_commit_head old.initial_commit_head new.initial_commit_head
  pub permission_mode : Takes u.permission_mode old.permission_mode new.permission_mode
  pub session_type : Takes u.session_type old.session_type new.session_type

merge-IsMerged :
    (u : Updates) (old : SessionInfo) (at : String)
    → IsMerged u old (record (merge old u) { updated_at = at })
merge-IsMerged u old at = record {
  custom_name = or_old-Takes u.custom_name old.custom_name;
  created_at = or_old-Takes u.created_at old.created_at;
  version = or_old-Takes u.version old.version;
  pinned = or_old-Takes u.pinned old.pinned;
  archived = or_old-Takes u.archived old.archived;
  continuation_session_id = or_old-Takes u.continuation_session_id old.continuation_session_id;
  initial_commit_head = or_old-Takes u.initial_commit_head old.initial_commit_head;
  permission_mode = or_old-Takes u.permission_mode old.permission_mode;
  session_type = or_old-Takes u.session_type old.session_type;
}

abbrev typed : String → String
typed kind = if is_truthy kind then kind else "user"

-- The session before: that of the row, its numbers read as truth values, or the defaults.
abbrev session_before : String → Option Row → SessionInfo
session_before now none = record {
  custom_name = "";
  created_at = now;
  updated_at = now;
  version = 4;
  pinned = false;
  archived = false;
  continuation_session_id = "";
  initial_commit_head = "";
  permission_mode = "default";
  session_type = "user";
}
session_before now (some row) = record {
  custom_name = row.custom_name;
  created_at = row.created_at;
  updated_at = row.updated_at;
  version = row.version;
  pinned = not (eqb row.pinned 0);
  archived = not (eqb row.archived 0);
  continuation_session_id = row.continuation_session_id;
  initial_commit_head = row.initial_commit_head;
  permission_mode = row.permission_mode;
  session_type = typed row.session_type;
}

-- The row of a session that was created at the given time.
abbrev stored : String → SessionInfo → Row
stored created info = record {
  custom_name = info.custom_name;
  created_at = created;
  updated_at = info.updated_at;
  version = info.version;
  pinned = if info.pinned then 1 else 0;
  archived = if info.archived then 1 else 0;
  continuation_session_id = info.continuation_session_id;
  initial_commit_head = info.initial_commit_head;
  permission_mode = info.permission_mode;
  session_type = info.session_type;
}

-- The creation time that is stored: the old one where there is a row.
abbrev pub created : Option Row → SessionInfo → String
created none info = info.created_at
created (some row) info = row.created_at

abbrev pub row_after : Option Row → SessionInfo → Row
row_after found info = stored (created found info) info

-- The time of the last update that is answered.
abbrev IsUpdated : String → Updates → Option Row → SessionInfo → Type 0
IsUpdated now u none info = Takes u.updated_at now info.updated_at
IsUpdated now u (some row) info = info.updated_at ≡ now

-- What the update answers.
abbrev pub Answers : String → Updates → Option Row → SessionInfo → Type 0
Answers now u found info = IsMerged u (session_before now found) info × IsUpdated now u found info

read_flag : (b : Bool) → not (eqb (if b then 1 else 0) 0) ≡ b
read_flag true = refl
read_flag false = refl

read_stored :
    (at : String) (info : SessionInfo)
    → map_row (stored at info)
      ≡ record info { created_at = at; session_type = typed info.session_type }
unfolding map_row
read_stored at info = rw (read_flag info.pinned, read_flag info.archived)

module _ {D : Type 0} (db : Database D) (sql : IsSql db) where
  abbrev pub Merges : String → String → Updates → D → Option Row → Type 0
  Merges now id u d found =
      (d' : D) × (info : SessionInfo) × (update_session_info db now id u d ≡ some (d', info))
      × Answers now u found info
      × ((j : String)
          → JsMap.get j (db.rows d')
            ≡ (if id == j then some (row_after found info) else JsMap.get j (db.rows d)))
      × ((later : String)
          → get_session_info db later id d' ≡ (
            d',
            record info { created_at = created found info; session_type = typed info.session_type },
          ))

  merges :
      (now id : String) (u : Updates) (d : D) (found : Option Row)
      → Updated db sql now id u d found
      → Merges now id u d found
  unfolding map_row
  merges now id u d none (d', done, rows, later) = (
    d',
    answer db sql now u none,
    done,
    (
      merge-IsMerged u (default_session now) (or_old u.updated_at now),
      or_old-Takes u.updated_at now,
    ),
    rows,
    λ t. later t ∙ ap (λ i. (d', i)) (read_stored _ (answer db sql now u none)),
  )
  merges now id u d (some row) (d', done, rows, later) = (
    d',
    answer db sql now u (some row),
    done,
    (merge-IsMerged u (map_row row) now, refl),
    rows,
    λ t. later t ∙ ap (λ i. (d', i)) (read_stored row.created_at (answer db sql now u (some row))),
  )

  -- An update succeeds. Each field of the answer is that of the update if it has one, and otherwise
  -- that of the stored session, or the default for an unknown one; a known session has the time of
  -- this update. The row of the session gets the answered fields, except that a known session keeps
  -- its creation time whatever the update says, and no other row changes. A later reading gives the
  -- answer with the creation time that is stored, and "user" for an empty type.
  pub update_session_info-Merges :
      (now id : String) (u : Updates) (d : D) → Merges now id u d (JsMap.get id (db.rows d))
  update_session_info-Merges now id u d =
      merges now id u d (JsMap.get id (db.rows d)) (update_session_info-Updated db sql now id u d)
