-- ===== src/SessionInfo/Changes.antt =====
-- What the batch operations of web/cui/src/services/session-info-service.ts change, and the number
-- that they answer.
use private_agent_platform.Base.{
  ℕ, String, Bool, true, false, not, ◌&&◌, List, Option, none, some, ◌==◌, if◌then◌else◌, is_some,
  eqb, leb, any, ◌≡◌, refl, ◌∙◌, ap, arith, eq_iff, Option-cases, Bool-cases, inl, inr,
}
use mathlib.Core.Option
use private_agent_platform.JsMap
use private_agent_platform.JsMap.{JsMap}
use private_agent_platform.JsMap.Index.{keep}
use private_agent_platform.SessionInfo.Table.{Row, Database, IsSql}
use private_agent_platform.SessionInfo.{row_of, default_session}
use private_agent_platform.SessionInfo.Batches.{
  archive, run_each, batch_archive_sessions, batch_delete_sessions, sync_missing_sessions,
}
use private_agent_platform.SessionInfo.Counts.{
  count_ids, length-filter-key, length-filter-id, run_each-count, run_each-rows,
}

-- What archiving does to the row of a session, if it has one.
abbrev pub archived_once : String → Option Row → Option Row
archived_once now = Option.map (λ r. if eqb r.archived 0 then archive now r else r)

abbrev pub is_unarchived : Option Row → Bool
is_unarchived o = is_some (keep (λ r. eqb r.archived 0) o)

-- What adding a missing session does to its row.
abbrev added_once : String → Option Row → Option Row
added_once now none = some (row_of (default_session now))
added_once now (some r) = some r

archived-twice :
    (now : String) (o : Option Row) → archived_once now (archived_once now o) ≡ archived_once now o
archived-twice now none = refl
archived-twice now (some r) = ground arith

added-twice : (now : String) (o : Option Row) → added_once now (added_once now o) ≡ added_once now o
added-twice now none = refl
added-twice now (some r) = refl

archived-spent :
    (now : String) (b : Bool) (o : Option Row)
    → is_unarchived (Option.map (λ r. if b && eqb r.archived 0 then archive now r else r) o)
      ≡ (is_unarchived o && not b)
archived-spent now b none = refl
archived-spent now b (some r) = ground arith

archived-at :
    (now : String) (b : Bool) (o : Option Row)
    → Option.map (λ r. if b && eqb r.archived 0 then archive now r else r) o
      ≡ (if b then archived_once now o else o)
archived-at now true o = refl
archived-at now false none = refl
archived-at now false (some r) = refl

eq_swap : (s t : String) → (s == t) ≡ (t == s)
eq_swap s t = ground (arith, eq_iff s t, eq_iff t s)

added-at :
    (now id j : String) (m : JsMap Row)
    → (if id == j && not (JsMap.has id m)
        then some (row_of (default_session now))
        else JsMap.get j m)
      ≡ (if id == j then added_once now (JsMap.get j m) else JsMap.get j m)
added-at now id j m = elim (Bool-cases (id == j)) [
  | inr other ↦ rw other
  | inl same ↦
      rw (same, (eq_iff id j).0 same)
        (elim (Option-cases (JsMap.get j m)) [ inl e ↦ rw e | inr (r, e) ↦ rw e ])
]

added-spent :
    (now id j : String) (m : JsMap Row)
    → not (
        is_some (
          if id == j && not (JsMap.has id m)
          then some (row_of (default_session now))
          else JsMap.get j m))
      ≡ (not (JsMap.has j m) && not (id == j))
added-spent now id j m = elim (Bool-cases (id == j)) [
  | inr other ↦ rw other (ground arith)
  | inl same ↦
      rw (same, (eq_iff id j).0 same)
        (elim (Option-cases (JsMap.get j m)) [ inl e ↦ rw e | inr (r, e) ↦ rw e ])
]

pub deleted-at :
    (id j : String) (o : Option Row) → keep (λ r. not (j == id)) o ≡ (if id == j then none else o)
deleted-at id j none = ground arith
deleted-at id j (some r) = rw (eq_swap j id) (ground arith)

module _ {D : Type 0} (db : Database D) (sql : IsSql db) where
  pub touched :
      (now : String) (x : D × ℕ) (j : String)
      → JsMap.get j (db.rows (if leb 1 x.1 then db.set_metadata "last_updated" now x.0 else x.0))
        ≡ JsMap.get j (db.rows x.0)
  touched now x j = ground (arith, sql.sets "last_updated" now x.0 j)

  -- A batch archives each session of the list that has a row and was not archived, with the time of
  -- the batch, changes no other row, and answers how many different sessions these are.
  pub batch_archive_sessions-get :
      (now : String) (ids : List String) (d : D) (j : String)
      → let (d', done) = batch_archive_sessions db now ids d in
        (JsMap.get j (db.rows d') ≡ (
          if any (λ id. id == j) ids
          then archived_once now (JsMap.get j (db.rows d))
          else JsMap.get j (db.rows d)))
        × (done ≡ count_ids (λ id. is_unarchived (JsMap.get id (db.rows d))) ids)
  unfolding batch_archive_sessions
  batch_archive_sessions-get now ids d j =
      let statement : String → D → D × ℕ =
        λ id. db.update (λ k r. k == id && eqb r.archived 0) (archive now) in
      (
        touched now (run_each statement ids d) j
            ∙ run_each-rows statement db.rows (archived_once now) (archived-twice now)
                (λ id d j.
                  sql.updates (λ k r. k == id && eqb r.archived 0) (archive now) d j
                  ∙ archived-at now (j == id) (JsMap.get j (db.rows d))
                  ∙ rw (eq_swap j id))
                ids d j,
        run_each-count statement (λ d id. is_unarchived (JsMap.get id (db.rows d)))
            (λ id d.
              sql.updated (λ k r. k == id && eqb r.archived 0) (archive now) d
              ∙ length-filter-key id (λ r. eqb r.archived 0) (db.rows d) (sql.distinct d))
            (λ id d j.
              ap is_unarchived (sql.updates (λ k r. k == id && eqb r.archived 0) (archive now) d j)
              ∙ archived-spent now (j == id) (JsMap.get j (db.rows d))
              ∙ rw (eq_swap j id))
            ids d,
      )

  -- A batch deletes the row of each session of the list, changes no other row, and answers how many
  -- different sessions of the list had one.
  batch_delete_sessions-get :
      (now : String) (ids : List String) (d : D) (j : String)
      → let (d', done) = batch_delete_sessions db now ids d in
        (JsMap.get j (db.rows d')
          ≡ (if any (λ id. id == j) ids then none else JsMap.get j (db.rows d)))
        × (done ≡ count_ids (λ id. JsMap.has id (db.rows d)) ids)
  unfolding batch_delete_sessions
  batch_delete_sessions-get now ids d j =
      let statement : String → D → D × ℕ = λ id. db.delete (λ k r. k == id) in
      (
        touched now (run_each statement ids d) j
            ∙ run_each-rows statement db.rows (λ o. none) (λ o. refl)
                (λ id d j.
                  sql.deletes (λ k r. k == id) d j ∙ deleted-at id j (JsMap.get j (db.rows d)))
                ids d j,
        run_each-count statement (λ d id. JsMap.has id (db.rows d))
            (λ id d.
              sql.deleted (λ k r. k == id) d ∙ length-filter-id id (db.rows d) (sql.distinct d))
            (λ id d j.
              ap is_some
                (sql.deletes (λ k r. k == id) d j ∙ deleted-at id j (JsMap.get j (db.rows d)))
              ∙ ground arith)
            ids d,
      )

  -- A synchronisation gives each session of the list that has no row the default one, changes no other
  -- row, and answers how many different sessions had none.
  sync_missing_sessions-get :
      (now : String) (ids : List String) (d : D) (j : String)
      → let (d', done) = sync_missing_sessions db now ids d in
        (JsMap.get j (db.rows d') ≡ (
          if any (λ id. id == j) ids
          then added_once now (JsMap.get j (db.rows d))
          else JsMap.get j (db.rows d)))
        × (done ≡ count_ids (λ id. not (JsMap.has id (db.rows d))) ids)
  unfolding sync_missing_sessions
  sync_missing_sessions-get now ids d j =
      let statement : String → D → D × ℕ =
        λ id. db.insert_or_ignore id (row_of (default_session now)) in
      (
        touched now (run_each statement ids d) j
            ∙ run_each-rows statement db.rows (added_once now) (added-twice now)
                (λ id d j.
                  sql.ignores id (row_of (default_session now)) d j ∙ added-at now id j (db.rows d))
                ids d j,
        run_each-count statement (λ d id. not (JsMap.has id (db.rows d)))
            (λ id d. sql.ignored id (row_of (default_session now)) d ∙ ground arith)
            (λ id d j.
              ap (λ o. not (is_some o)) (sql.ignores id (row_of (default_session now)) d j)
              ∙ added-spent now id j (db.rows d))
            ids d,
      )
