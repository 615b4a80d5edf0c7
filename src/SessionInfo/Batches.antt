-- ===== src/SessionInfo/Batches.antt =====
-- The batch operations of web/cui/src/services/session-info-service.ts: each runs in a transaction
-- and answers with the number of rows that it changed.
use private_agent_platform.Base.{ℕ, ◌+◌, String, ◌&&◌, List, [], ◌∷◌, ◌==◌, if◌then◌else◌, eqb, leb}
use private_agent_platform.SessionInfo.Table.{Row, Database}
use private_agent_platform.SessionInfo.{row_of, default_session}

-- The assignments of the UPDATE statements that archive.
abbrev pub archive : String → Row → Row
archive now row = record row { archived = 1; updated_at = now }

-- The loops: a statement for each id, and how many of them changed a row.
unfoldable pub run_each {ℓ} : {D : Type ℓ} → (String → D → D × ℕ) → List String → D → D × ℕ
run_each statement [] d = (d, 0)
run_each statement (id ∷ ids) d =
    let (d₁, changes) = statement id d in
    let (d₂, done) = run_each statement ids d₁ in (d₂, (if leb 1 changes then 1 else 0) + done)

module _ {D : Type 0} (db : Database D) where
  abbrev touch_if : String → D × ℕ → D × ℕ
  touch_if now x = (if leb 1 x.1 then db.set_metadata "last_updated" now x.0 else x.0, x.1)

  unfoldable pub archive_all_sessions : String → D → D × ℕ
  archive_all_sessions now d = touch_if now (db.update (λ k r. eqb r.archived 0) (archive now) d)

  unfoldable pub batch_archive_sessions : String → List String → D → D × ℕ
  unfolding run_each
  batch_archive_sessions now ids d =
      touch_if now
        (run_each (λ id. db.update (λ k r. k == id && eqb r.archived 0) (archive now)) ids d)

  unfoldable pub batch_delete_sessions : String → List String → D → D × ℕ
  unfolding run_each
  batch_delete_sessions now ids d = touch_if now (run_each (λ id. db.delete (λ k r. k == id)) ids d)

  unfoldable pub sync_missing_sessions : String → List String → D → D × ℕ
  unfolding run_each
  sync_missing_sessions now ids d =
      touch_if now (run_each (λ id. db.insert_or_ignore id (row_of (default_session now))) ids d)
