-- ===== src/Conversations/Resumed.antt =====
-- What resuming a session stores (web/cui/src/routes/conversation.routes.ts over
-- session-info-service.ts and conversation-status-manager.ts).
use private_agent_platform.Base.{
  String, true, false, List, Option, none, some, ◌==◌, if◌then◌else◌, is_truthy, ◌≡◌, refl, ◌∙◌, ap,
  arith, eq_refl, eq_iff, sym, Bool-cases, inl, inr,
}
use mathlib.Core.Option
use private_agent_platform.JsMap
use private_agent_platform.Types.{ConversationMessage}
use private_agent_platform.Status.{Status, get_session_id, get_streaming_id}
use private_agent_platform.Status.Bijection.{IsMatched}
use private_agent_platform.Status.Mappings.{register_active_session-lookup}
use private_agent_platform.Process.{Config}
use private_agent_platform.SessionInfo.Table.{Row, Database, IsSql}
use private_agent_platform.SessionInfo.{Updates, no_updates, map_row}
use private_agent_platform.SessionInfo.Sessions.{written, known, update_session_info-Updated}
use private_agent_platform.Conversations.{
  StartRequest, SystemInit, given, try_update, resolve_mode, prepare_start, store_continuation,
  store_mode, register_resumed, finish_start,
}

swapped : (s t : String) → (t == s) ≡ false → (s == t) ≡ false
swapped s t h = ground (arith, h, eq_iff s t, eq_iff t s)

-- Two written keys leave every other one.
two_written :
    (a b j : String) (g f : String → Option Row) (x y : Option Row)
    → ((k : String) → g k ≡ (if a == k then x else if b == k then y else f k))
    → g j ≡ (if a == j then g a else if b == j then g b else f j)
two_written a b j g f x y h = elim (Bool-cases (a == j)) [
  | inl same ↦ rw same (ap g (sym ((eq_iff a j).0 same)))
  | inr other ↦ elim (Bool-cases (b == j)) [
    | inl same ↦ rw (other, same) (ap g (sym ((eq_iff b j).0 same)))
    | inr other' ↦ h j ∙ rw (other, other')
  ]
]

module _ {D : Type 0} (db : Database D) (sql : IsSql db) where
  try_update-rows :
      (now id : String) (u : Updates) (d : D) (j : String)
      → JsMap.get j (db.rows (try_update db now id u d)) ≡ (
          if id == j
          then some (written db sql now u (JsMap.get id (db.rows d)))
          else JsMap.get j (db.rows d))
  try_update-rows now id u d j =
      let (d', done, rows, later) = update_session_info-Updated db sql now id u d in
      rw (done, try_update) (rows j)

  abbrev pub continued : SystemInit → Updates
  continued init = record no_updates { continuation_session_id = some init.session_id }

  abbrev with_mode : String → Updates
  with_mode mode = record no_updates { permission_mode = some mode }

  -- The rows after the second part, for a resumed session and a mode.
  finish-rows :
      (now t : String) (init : SystemInit) (config : Config) (r : StartRequest) (d : D)
      (status : Status) (id mode : String)
      → given r.resumed_session_id ≡ some id
      → given config.permission_mode ≡ some mode
      → (j : String)
      → JsMap.get j (db.rows (finish_start db now t init config r (d, status)).0) ≡ (
          if init.session_id == j
          then some (
              written db sql now (with_mode mode) (
                if id == init.session_id
                then some (written db sql now (continued init) (JsMap.get id (db.rows d)))
                else JsMap.get init.session_id (db.rows d)))
          else if id == j
          then some (written db sql now (continued init) (JsMap.get id (db.rows d)))
          else JsMap.get j (db.rows d))
  unfolding finish_start store_mode store_continuation
  finish-rows now t init config r d status id mode resumed moded j =
      rw (moded, store_mode)
        (rw (resumed, store_continuation)
          (try_update-rows now init.session_id (with_mode mode)
              (try_update db now id (continued init) d) j
            ∙ rw (
              try_update-rows now id (continued init) d init.session_id,
              try_update-rows now id (continued init) d j,
            )))

  written-mode :
      (now mode : String) (o : Option Row)
      → (written db sql now (with_mode mode) o).permission_mode ≡ mode
  unfolding map_row
  written-mode now mode none = refl
  written-mode now mode (some row) = refl

  resolved :
      (now id : String) (r : StartRequest) (row : Row) (d : D)
      → JsMap.get id (db.rows d) ≡ some row
      → given r.permission_mode ≡ none
      → given r.resumed_session_id ≡ some id
      → resolve_mode db now r d ≡ (d, some row.permission_mode)
  unfolding resolve_mode map_row
  resolved now id r row d e unset resumed =
      rw (unset, resolve_mode) (rw (resumed, resolve_mode) (rw (known db sql now id row d e) refl))

  -- The continuation, the name and the mode of a row.
  abbrev pub shown : Row → String × String × String
  shown w = (w.continuation_session_id, w.custom_name, w.permission_mode)

  abbrev pub mode_of : Option Row → Option String
  mode_of = Option.map (λ w. w.permission_mode)

  abbrev pub Continues : String → SystemInit → String → Row → D → D × Status → Type 0
  Continues t init id row d x =
      (mode_of (JsMap.get init.session_id (db.rows x.0)) ≡ some row.permission_mode)
      × (Option.map shown (JsMap.get id (db.rows x.0))
          ≡ some (init.session_id, row.custom_name, row.permission_mode))
      × ((j : String)
          → JsMap.get j (db.rows x.0) ≡ (
              if init.session_id == j
              then JsMap.get init.session_id (db.rows x.0)
              else if id == j
              then JsMap.get id (db.rows x.0)
              else JsMap.get j (db.rows d)))
      × (get_session_id t x.1 ≡ some init.session_id)
      × (get_streaming_id init.session_id x.1 ≡ some t)

  finish-Continues :
      (now t : String) (init : SystemInit) (config : Config) (r : StartRequest) (d : D)
      (status : Status) (id : String) (row : Row)
      → IsMatched status
      → given r.resumed_session_id ≡ some id
      → given config.permission_mode ≡ some row.permission_mode
      → JsMap.get id (db.rows d) ≡ some row
      → (id == init.session_id) ≡ false
      → Continues t init id row d (finish_start db now t init config r (d, status))
  unfolding finish_start register_resumed map_row
  finish-Continues now t init config r d status id row v resumed moded e other =
      let rows = finish-rows now t init config r d status id row.permission_mode resumed moded in
      let status_at =
        register_active_session-lookup now t init.session_id
          (some (record {
            initial_prompt = config.initial_prompt;
            working_directory = init.cwd;
            model = some init.model;
            inherited_messages = config.previous_messages;
          }))
          status v init.session_id t in
      let continued_at : JsMap.get id (db.rows (finish_start db now t init config r (d, status)).0)
          ≡ some (written db sql now (continued init) (some row)) =
        rows id ∙ rw (swapped init.session_id id other, eq_refl id, e) refl in
      (
        ap mode_of (rows init.session_id)
            ∙ rw (eq_refl init.session_id) (ap some (written-mode now row.permission_mode _)),
        ap (Option.map shown) continued_at,
        λ j.
            two_written init.session_id id j
              (λ k. JsMap.get k (db.rows (finish_start db now t init config r (d, status)).0))
              (λ k. JsMap.get k (db.rows d)) _ _ rows,
        rw (resumed, register_resumed) (status_at.1 ∙ rw (eq_refl t)),
        rw (resumed, register_resumed) (status_at.0 ∙ rw (eq_refl init.session_id)),
      )

  -- A session that is resumed without a permission mode runs with the mode of the stored session,
  -- which the session that continues it keeps. The stored session gets the continuation and keeps its
  -- name and its own mode, the stored rows of other sessions stay, and the new session is active on
  -- the stream.
  pub finish_start-inherits :
      (now t directory prompt : String) (fetch : String → Option (List ConversationMessage))
      (init : SystemInit) (r : StartRequest) (d : D) (status : Status) (id : String) (row : Row)
      → IsMatched status
      → given r.permission_mode ≡ none
      → given r.resumed_session_id ≡ some id
      → JsMap.get id (db.rows d) ≡ some row
      → is_truthy row.permission_mode ≡ true
      → (id == init.session_id) ≡ false
      → let (d₁, config) = prepare_start db now fetch directory prompt r d in
        (config.permission_mode ≡ some row.permission_mode)
        × Continues t init id row d (finish_start db now t init config r (d₁, status))
  unfolding prepare_start
  finish_start-inherits now t directory prompt fetch init r d status id row v unset resumed e named
        other =
      rw (resolved now id r row d e unset resumed)
        (refl, finish-Continues now t init _ r d status id row v resumed (rw named refl) e other)
