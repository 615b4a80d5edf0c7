-- ===== src/SessionInfo/Table.antt =====
-- The SQLite tables of web/cui/src/services/session-info-service.ts, as a parameter: the statements
-- that the service runs, and what it relies on of each. A statement that changes rows answers with
-- their number.
use private_agent_platform.Base.{
  ℕ, String, Bool, not, ◌&&◌, Option, none, some, ◌==◌, if◌then◌else◌, filter, length, ◌≡◌, true,
}
use mathlib.Core.Option
use private_agent_platform.JsMap
use private_agent_platform.JsMap.{JsMap}
use private_agent_platform.JsMap.Index.{keep}
use private_agent_platform.JsMap.Laws.{IsDistinct}

-- A row of the table of sessions, without its key.
pub record Row : Type 0 where
  pub custom_name : String
  pub created_at : String
  pub updated_at : String
  pub version : ℕ
  pub pinned : ℕ
  pub archived : ℕ
  pub continuation_session_id : String
  pub initial_commit_head : String
  pub permission_mode : String
  pub session_type : String

-- `insert` fails on a key that is present, `insert_or_ignore` leaves such a row as it is. `update` and
-- `delete` take the condition on a key and its row.
pub record Database (D : Type 0) : Type 0 where
  pub rows : D → JsMap Row
  pub metadata : D → JsMap String
  pub insert : String → Row → D → Option D
  pub insert_or_ignore : String → Row → D → D × ℕ
  pub update : (String → Row → Bool) → (Row → Row) → D → D × ℕ
  pub delete : (String → Row → Bool) → D → D × ℕ
  pub set_metadata : String → String → D → D

-- What the statements do to the rows.
pub record IsSql {D : Type 0} (db : Database D) : Type 0 where
  pub distinct : (d : D) → IsDistinct (db.rows d)
  pub inserts :
      (k : String) (row : Row) (d : D)
      → JsMap.get k (db.rows d) ≡ none
      → (d' : D) × (db.insert k row d ≡ some d')
        × ((j : String)
            → JsMap.get j (db.rows d') ≡ (if k == j then some row else JsMap.get j (db.rows d)))
  pub inserts_once :
      (k : String) (row : Row) (d : D) → JsMap.has k (db.rows d) ≡ true → db.insert k row d ≡ none
  pub ignores :
      (k : String) (row : Row) (d : D) (j : String)
      → JsMap.get j (db.rows (db.insert_or_ignore k row d).0)
        ≡ (if k == j && not (JsMap.has k (db.rows d)) then some row else JsMap.get j (db.rows d))
  pub ignored :
      (k : String) (row : Row) (d : D)
      → (db.insert_or_ignore k row d).1 ≡ (if JsMap.has k (db.rows d) then 0 else 1)
  pub updates :
      (p : String → Row → Bool) (f : Row → Row) (d : D) (j : String)
      → JsMap.get j (db.rows (db.update p f d).0)
        ≡ Option.map (λ r. if p j r then f r else r) (JsMap.get j (db.rows d))
  pub updated :
      (p : String → Row → Bool) (f : Row → Row) (d : D)
      → (db.update p f d).1 ≡ length (filter (λ e. p e.0 e.1) (db.rows d))
  pub deletes :
      (p : String → Row → Bool) (d : D) (j : String)
      → JsMap.get j (db.rows (db.delete p d).0) ≡ keep (λ r. not (p j r)) (JsMap.get j (db.rows d))
  pub deleted :
      (p : String → Row → Bool) (d : D)
      → (db.delete p d).1 ≡ length (filter (λ e. p e.0 e.1) (db.rows d))
  pub sets :
      (k v : String) (d : D) (j : String)
      → JsMap.get j (db.rows (db.set_metadata k v d)) ≡ JsMap.get j (db.rows d)
