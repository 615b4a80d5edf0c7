-- ===== src/SessionInfo/Stored.antt =====
-- Deleting one session, archiving all and reading all (web/cui/src/services/session-info-service.ts).
use private_agent_platform.Base.{
  String, [], ◌∷◌, Option, none, some, ◌==◌, if◌then◌else◌, eqb, filter, length, ◌≡◌, refl, ◌∙◌,
  eq_iff, subst, Bool-cases, inl, inr,
}
use mathlib.Core.Option
use private_agent_platform.JsMap
use private_agent_platform.JsMap.{JsMap}
use private_agent_platform.JsMap.Laws.{IsDistinct, get-set}
use private_agent_platform.Types.{SessionInfo}
use private_agent_platform.SessionInfo.Table.{Row, Database, IsSql}
use private_agent_platform.SessionInfo.{map_row, info_of_rows, get_all_session_info, delete_session}
use private_agent_platform.SessionInfo.Batches.{archive, archive_all_sessions}
use private_agent_platform.SessionInfo.Changes.{archived_once, deleted-at, touched}

-- What is read of a row, before what was read already.
read_first : Option Row → Option SessionInfo → Option SessionInfo
unfolding map_row
read_first none o = o
read_first (some row) o = some (map_row row)

-- The row that is read last wins; each key is read once.
info_of_rows-get :
    (rows : JsMap Row) (result : JsMap SessionInfo) (j : String)
    → IsDistinct rows
    → JsMap.get j (info_of_rows rows result) ≡ read_first (JsMap.get j rows) (JsMap.get j result)
unfolding info_of_rows JsMap.get read_first
info_of_rows-get [] result j d = refl
info_of_rows-get ((id, row) ∷ rows) result j d =
    info_of_rows-get rows (JsMap.set id (map_row row) result) j d.1 ∙ elim (Bool-cases (id == j)) [
      | inl same ↦
          let absent = subst (λ k. JsMap.get k rows ≡ none) ((eq_iff id j).0 same) d.0 in
          rw (same, absent, get-set id j (map_row row) result, same)
      | inr other ↦ rw (other, get-set id j (map_row row) result, other)
    ]

module _ {D : Type 0} (db : Database D) (sql : IsSql db) where
  -- All sessions are read: each stored one as its row says, and no other.
  get_all_session_info-get :
      (d : D) (j : String)
      → JsMap.get j (get_all_session_info db d) ≡ Option.map map_row (JsMap.get j (db.rows d))
  unfolding get_all_session_info JsMap.get read_first
  get_all_session_info-get d j =
      info_of_rows-get (db.rows d) [] j (sql.distinct d) ∙ by_cases (JsMap.get j (db.rows d))
    where
      by_cases : (o : Option Row) → read_first o none ≡ Option.map map_row o
      by_cases none = refl
      by_cases (some row) = refl

  -- A deletion removes the one row.
  delete_session-get :
      (now id : String) (d : D) (j : String)
      → JsMap.get j (db.rows (delete_session db now id d))
        ≡ (if id == j then none else JsMap.get j (db.rows d))
  unfolding delete_session
  delete_session-get now id d j =
      touched db sql now (db.delete (λ k r. k == id) d) j
      ∙ sql.deletes (λ k r. k == id) d j
      ∙ deleted-at id j (JsMap.get j (db.rows d))

  -- Every session that was not archived is, with the time of the call, no other row changes, and the
  -- answer is the number of rows that were not archived.
  archive_all_sessions-get :
      (now : String) (d : D) (j : String)
      → let (d', done) = archive_all_sessions db now d in
        (JsMap.get j (db.rows d') ≡ archived_once now (JsMap.get j (db.rows d)))
        × (done ≡ length (filter (λ e. eqb e.1.archived 0) (db.rows d)))
  unfolding archive_all_sessions
  archive_all_sessions-get now d j = (
    touched db sql now (db.update (λ k r. eqb r.archived 0) (archive now) d) j
        ∙ sql.updates (λ k r. eqb r.archived 0) (archive now) d j,
    sql.updated (λ k r. eqb r.archived 0) (archive now) d,
  )
