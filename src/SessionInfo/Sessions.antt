-- ===== src/SessionInfo/Sessions.antt =====
-- Reading and updating one session (web/cui/src/services/session-info-service.ts).
use private_agent_platform.Base.{
  String, Bool, false, not, ◌&&◌, Option, none, some, ◌==◌, if◌then◌else◌, is_some, ◌≡◌, refl, sym,
  ◌∙◌, arith, eq_refl, eq_iff, Option-cases, Bool-cases, inl, inr,
}
use mathlib.Core.Option
use private_agent_platform.JsMap
use private_agent_platform.Types.{SessionInfo}
use private_agent_platform.SessionInfo.Table.{Row, Database, IsSql}
use private_agent_platform.SessionInfo.{
  Updates, merge, map_row, row_of, default_session, assign, get_session_info, update_session_info,
}

unassigned :
    (b : Bool) (f : Row → Row) (o : Option Row)
    → b ≡ false
    → Option.map (λ r. if b then f r else r) o ≡ o
unassigned b f none e = refl
unassigned b f (some r) e = rw e

module _ {D : Type 0} (db : Database D) (sql : IsSql db) where
  -- What is inserted, under a time stamp.
  insert-rows :
      (now k : String) (row : Row) (d : D)
      → JsMap.get k (db.rows d) ≡ none
      → (d' : D) × (db.insert k row d ≡ some d')
        × ((j : String)
            → JsMap.get j (db.rows (db.set_metadata "last_updated" now d'))
              ≡ (if k == j then some row else JsMap.get j (db.rows d)))
  insert-rows now k row d e =
      let (d', done, rows) = sql.inserts k row d e in
      (d', done, λ j. sql.sets "last_updated" now d' j ∙ rows j)

  pub known :
      (now id : String) (row : Row) (d : D)
      → JsMap.get id (db.rows d) ≡ some row
      → get_session_info db now id d ≡ (d, map_row row)
  unfolding get_session_info
  known now id row d e = rw (e, get_session_info)

  unknown :
      (now id : String) (d d' : D)
      → JsMap.get id (db.rows d) ≡ none
      → db.insert id (row_of (default_session now)) d ≡ some d'
      → get_session_info db now id d ≡ (db.set_metadata "last_updated" now d', default_session now)
  unfolding get_session_info
  unknown now id d d' e done = rw (e, get_session_info) (rw (done, get_session_info) refl)

  -- What a reading leaves and answers, by the row that was found.
  abbrev Reads : String → String → D → Option Row → D × SessionInfo → Type 0
  Reads now id d found x =
      ((j : String)
        → JsMap.get j (db.rows x.0) ≡ (
            if id == j && not (is_some found)
            then some (row_of (default_session now))
            else JsMap.get j (db.rows d)))
      × (x.1 ≡ (elim found [ none ↦ default_session now | some row ↦ map_row row ]))
      × ((later : String) → get_session_info db later id x.0 ≡ x)

  known-Reads :
      (now id : String) (row : Row) (d : D)
      → JsMap.get id (db.rows d) ≡ some row
      → Reads now id d (some row) (d, map_row row)
  known-Reads now id row d e = (λ j. ground arith, refl, λ later. known later id row d e)

  unknown-Reads :
      (now id : String) (d d' : D)
      → ((j : String)
          → JsMap.get j (db.rows (db.set_metadata "last_updated" now d'))
            ≡ (if id == j then some (row_of (default_session now)) else JsMap.get j (db.rows d)))
      → Reads now id d none (db.set_metadata "last_updated" now d', default_session now)
  unfolding map_row
  unknown-Reads now id d d' rows = (
    λ j. rows j ∙ ground arith,
    refl,
    λ later.
        known later id (row_of (default_session now)) (db.set_metadata "last_updated" now d')
          (rows id ∙ rw (eq_refl id)),
  )

  -- Reading a session answers what is stored; an unknown session is stored first, with the defaults
  -- and no other session changed, so that a later reading gives the same answer and stores nothing.
  get_session_info-Reads :
      (now id : String) (d : D)
      → Reads now id d (JsMap.get id (db.rows d)) (get_session_info db now id d)
  get_session_info-Reads now id d = elim (Option-cases (JsMap.get id (db.rows d))) [
    | inr (row, e) ↦ rw (known now id row d e, e) (known-Reads now id row d e)
    | inl e ↦
        let (d', done, rows) = insert-rows now id (row_of (default_session now)) d e in
        rw (unknown now id d d' e done, e) (unknown-Reads now id d d' rows)
  ]

  -- The answer of an update, and the row that it leaves, by the row that was there.
  abbrev pub answer : String → Updates → Option Row → SessionInfo
  answer now u none = merge (default_session now) u
  answer now u (some row) = record (merge (map_row row) u) { updated_at = now }

  abbrev pub written : String → Updates → Option Row → Row
  written now u none = row_of (answer now u none)
  written now u (some row) = assign (answer now u (some row)) row

  update_known :
      (now id : String) (u : Updates) (row : Row) (d : D)
      → JsMap.get id (db.rows d) ≡ some row
      → update_session_info db now id u d
        ≡ some (
          db.set_metadata "last_updated" now
              (db.update (λ k r. k == id) (assign (answer now u (some row))) d).0,
          answer now u (some row),
        )
  unfolding update_session_info
  update_known now id u row d e = rw (e, update_session_info)

  update_unknown :
      (now id : String) (u : Updates) (d d' : D)
      → JsMap.get id (db.rows d) ≡ none
      → db.insert id (row_of (answer now u none)) d ≡ some d'
      → update_session_info db now id u d
        ≡ some (db.set_metadata "last_updated" now d', answer now u none)
  unfolding update_session_info
  update_unknown now id u d d' e done =
      rw (e, update_session_info) (rw (done, update_session_info) refl)

  -- Only the row of the session is assigned.
  update-rows :
      (now id : String) (f : Row → Row) (row : Row) (d : D)
      → JsMap.get id (db.rows d) ≡ some row
      → (j : String)
      → JsMap.get j
          (db.rows (db.set_metadata "last_updated" now (db.update (λ k r. k == id) f d).0))
        ≡ (if id == j then some (f row) else JsMap.get j (db.rows d))
  update-rows now id f row d e j =
      sql.sets "last_updated" now _ j
      ∙ sql.updates (λ k r. k == id) f d j
      ∙ elim (Bool-cases (id == j)) [
        | inl same ↦ rw (same, sym ((eq_iff id j).0 same), e, eq_refl id)
        | inr other ↦ rw other (
            unassigned (j == id) f (JsMap.get j (db.rows d))
              (ground (arith, eq_iff id j, eq_iff j id)))
      ]

  -- What an update of the session leaves, by the row that was found.
  abbrev pub Updated : String → String → Updates → D → Option Row → Type 0
  Updated now id u d found =
      (d' : D) × (update_session_info db now id u d ≡ some (d', answer now u found))
      × ((j : String)
          → JsMap.get j (db.rows d')
            ≡ (if id == j then some (written now u found) else JsMap.get j (db.rows d)))
      × ((later : String) → get_session_info db later id d' ≡ (d', map_row (written now u found)))

  update_cases :
      (now id : String) (u : Updates) (d : D) (found : Option Row)
      → JsMap.get id (db.rows d) ≡ found
      → Updated now id u d found
  update_cases now id u d none e =
      let (d', done, rows) = insert-rows now id (row_of (answer now u none)) d e in
      (
        db.set_metadata "last_updated" now d',
        update_unknown now id u d d' e done,
        rows,
        λ later.
            known later id (written now u none) (db.set_metadata "last_updated" now d')
              (rows id ∙ rw (eq_refl id)),
      )
  update_cases now id u d (some row) e =
      let rows = update-rows now id (assign (answer now u (some row))) row d e in
      (
        db.set_metadata "last_updated" now
            (db.update (λ k r. k == id) (assign (answer now u (some row))) d).0,
        update_known now id u row d e,
        rows,
        λ later. known later id (written now u (some row)) _ (rows id ∙ rw (eq_refl id)),
      )

  pub update_session_info-Updated :
      (now id : String) (u : Updates) (d : D) → Updated now id u d (JsMap.get id (db.rows d))
  update_session_info-Updated now id u d = update_cases now id u d (JsMap.get id (db.rows d)) refl
