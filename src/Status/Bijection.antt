-- ===== src/Status/Bijection.antt =====
-- The invariant of conversation-status-manager.ts on its two maps, and lemmas on it.
use private_agent_platform.Base.{
  String, true, false, Option, none, some, ◌==◌, ◌≡◌, ◌≢◌, refl, inl, inr, if◌then◌else◌, is_truthy,
  eq_iff, eq_refl, arith, Option-cases, ◌∙◌, sym,
}
use private_agent_platform.JsMap
use private_agent_platform.JsMap.{JsMap}
use private_agent_platform.JsMap.Laws.{get-set, get-delete, IsDistinct}
use private_agent_platform.Status.{
  Status, ContextInput, new, register_active_session, drop_session_mapping, drop_streaming_mapping,
  set_mapping, store_context,
}

pub record IsMatched (s : Status) : Type 0 where
  pub sessions_distinct : IsDistinct s.session_to_streaming
  pub streams_distinct : IsDistinct s.streaming_to_session
  pub contexts_distinct : IsDistinct s.session_context
  pub forth :
      (c t : String)
      → JsMap.get c s.session_to_streaming ≡ some t
      → JsMap.get t s.streaming_to_session ≡ some c
  pub back :
      (t c : String)
      → JsMap.get t s.streaming_to_session ≡ some c
      → JsMap.get c s.session_to_streaming ≡ some t
  pub named :
      (c t : String)
      → JsMap.get c s.session_to_streaming ≡ some t
      → (is_truthy c ≡ true) × (is_truthy t ≡ true)
  pub only_active :
      (c : String)
      → JsMap.get c s.session_to_streaming ≡ none
      → JsMap.get c s.session_context ≡ none

-- The entry, unless it is `x`.
abbrev pub without : String → Option String → Option String
without x none = none
without x (some y) = if y == x then none else some y

pub new-IsMatched : IsMatched new
unfolding new JsMap.get
new-IsMatched = record {
  sessions_distinct = tt;
  streams_distinct = tt;
  contexts_distinct = tt;
  forth = λ c t h. cc;
  back = λ t c h. cc;
  named = λ c t h. cc;
  only_active = λ c h. refl;
}

pub without_other : (x : String) (o : Option String) → o ≢ some x → without x o ≡ o
without_other x none h = refl
without_other x (some y) h = ground (arith, eq_iff y x)

pub without_self : (x : String) → without x (some x) ≡ none
without_self x = rw (eq_refl x)

-- What the first step keeps of the stream map: the session's old stream is gone.
drop_session-get :
    (streaming claude : String) (s : Status)
    → IsMatched s
    → (j : String)
    → JsMap.get j (drop_session_mapping streaming claude s).streaming_to_session ≡ (
        if streaming == j
        then JsMap.get j s.streaming_to_session
        else without claude (JsMap.get j s.streaming_to_session))
unfolding drop_session_mapping
drop_session-get streaming claude s v j =
    elim (Option-cases (JsMap.get claude s.session_to_streaming)) [
      | inl e ↦
          rw
            (
              e,
              drop_session_mapping,
              without_other claude (JsMap.get j s.streaming_to_session)
                  (λ h. cc (v.back j claude h)),
            )
            (ground arith)
      | inr (old, e) ↦
          rw (e, drop_session_mapping)
            (ground (
              arith,
              eq_iff streaming j,
              eq_iff old streaming,
              eq_iff old j,
              get-delete old j s.streaming_to_session,
              v.named claude old e,
              v.forth claude old e,
              v.back j claude,
              without_self claude,
              without_other claude (JsMap.get j s.streaming_to_session),
            ))
    ]

-- What the second step keeps of the session map: the stream's old session is gone.
drop_streaming-get :
    (streaming claude : String) (s s' : Status)
    → IsMatched s
    → s'.session_to_streaming ≡ s.session_to_streaming
    → JsMap.get streaming s'.streaming_to_session ≡ JsMap.get streaming s.streaming_to_session
    → (j : String)
    → JsMap.get j (drop_streaming_mapping streaming claude s').session_to_streaming ≡ (
        if claude == j
        then JsMap.get j s.session_to_streaming
        else without streaming (JsMap.get j s.session_to_streaming))
unfolding drop_streaming_mapping
drop_streaming-get streaming claude s s' v same at j =
    elim (Option-cases (JsMap.get streaming s.streaming_to_session)) [
      | inl e ↦
          rw
            (
              at ∙ e,
              drop_streaming_mapping,
              same,
              without_other streaming (JsMap.get j s.session_to_streaming)
                  (λ h. cc (v.forth j streaming h)),
            )
            (ground arith)
      | inr (old, e) ↦
          rw (at ∙ e, drop_streaming_mapping, same)
            (ground (
              arith,
              eq_iff claude j,
              eq_iff old claude,
              eq_iff old j,
              get-delete old j s.session_to_streaming,
              v.back streaming old e,
              v.named old streaming (v.back streaming old e),
              v.forth j streaming,
              without_self streaming,
              without_other streaming (JsMap.get j s.session_to_streaming),
            ))
    ]

drop_session_keeps :
    (streaming claude : String) (s : Status)
    → ((drop_session_mapping streaming claude s).session_to_streaming ≡ s.session_to_streaming)
      × ((drop_session_mapping streaming claude s).session_context ≡ s.session_context)
unfolding drop_session_mapping
drop_session_keeps streaming claude s = ground arith

drop_streaming_keeps :
    (streaming claude : String) (s : Status)
    → (drop_streaming_mapping streaming claude s).streaming_to_session ≡ s.streaming_to_session
unfolding drop_streaming_mapping
drop_streaming_keeps streaming claude s = ground arith

store_context_keeps :
    (now claude : String) (context : Option ContextInput) (s : Status)
    → ((store_context now claude context s).session_to_streaming ≡ s.session_to_streaming)
      × ((store_context now claude context s).streaming_to_session ≡ s.streaming_to_session)
unfolding store_context
store_context_keeps now claude none s = (refl, refl)
store_context_keeps now claude (some c) s = (refl, refl)

store_context-get :
    (now claude : String) (context : Option ContextInput) (s : Status) (j : String)
    → (claude == j) ≡ false
    → JsMap.get j (store_context now claude context s).session_context
      ≡ JsMap.get j s.session_context
unfolding store_context
store_context-get now claude none s j ne = refl
store_context-get now claude (some c) s j ne = rw (get-set claude j, ne)

module _ (now streaming claude : String) (context : Option ContextInput) (s : Status)
    (v : IsMatched s) where
  abbrev pub after : Status
  after = (register_active_session now streaming claude context s).0

  abbrev dropped : Status
  dropped = drop_streaming_mapping streaming claude (drop_session_mapping streaming claude s)

  dropped_at :
      JsMap.get streaming (drop_session_mapping streaming claude s).streaming_to_session
      ≡ JsMap.get streaming s.streaming_to_session
  dropped_at = rw (drop_session-get streaming claude s v streaming, eq_refl streaming)

  pub sessions_after :
      (j : String)
      → JsMap.get j after.session_to_streaming ≡ (
          if claude == j
          then some streaming
          else without streaming (JsMap.get j s.session_to_streaming))
  unfolding register_active_session set_mapping
  sessions_after j =
      rw
        (
          (store_context_keeps now claude context (set_mapping streaming claude dropped)).0,
          get-set claude j streaming dropped.session_to_streaming,
          drop_streaming-get streaming claude s (drop_session_mapping streaming claude s) v
              (drop_session_keeps streaming claude s).0 dropped_at j,
        )
        (ground arith)

  pub streams_after :
      (j : String)
      → JsMap.get j after.streaming_to_session ≡ (
          if streaming == j
          then some claude
          else without claude (JsMap.get j s.streaming_to_session))
  unfolding register_active_session set_mapping
  streams_after j =
      rw
        (
          (store_context_keeps now claude context (set_mapping streaming claude dropped)).1,
          get-set streaming j claude dropped.streaming_to_session,
          drop_streaming_keeps streaming claude (drop_session_mapping streaming claude s),
          drop_session-get streaming claude s v j,
        )
        (ground arith)

  -- The contexts of sessions that are no longer active are dropped.
  dropped-context :
      (j : String)
      → (claude == j) ≡ false
      → without streaming (JsMap.get j s.session_to_streaming) ≡ none
      → JsMap.get j dropped.session_context ≡ none
  unfolding drop_streaming_mapping
  dropped-context j ne gone = elim (Option-cases (JsMap.get streaming s.streaming_to_session)) [
    | inl e ↦
        rw (dropped_at ∙ e, drop_streaming_mapping, (drop_session_keeps streaming claude s).1)
          (v.only_active j (
            sym (
              without_other streaming (JsMap.get j s.session_to_streaming)
                (λ h. cc (v.forth j streaming h)))
            ∙ gone))
    | inr (old, e) ↦
        rw (dropped_at ∙ e, drop_streaming_mapping, (drop_session_keeps streaming claude s).1)
          (ground (
            arith,
            eq_iff claude j,
            eq_iff old claude,
            eq_iff old j,
            get-delete old j s.session_context,
            v.back streaming old e,
            v.named old streaming (v.back streaming old e),
            v.forth j streaming,
            v.only_active j,
            without_other streaming (JsMap.get j s.session_to_streaming),
          ))
  ]

  pub after-only_active :
      (j : String)
      → JsMap.get j after.session_to_streaming ≡ none
      → JsMap.get j after.session_context ≡ none
  unfolding register_active_session set_mapping
  after-only_active j h = ground (
    arith,
    sessions_after j,
    dropped-context j,
    store_context-get now claude context (set_mapping streaming claude dropped) j,
  )
