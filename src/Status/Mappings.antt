-- ===== src/Status/Mappings.antt =====
-- Lemmas on registering and unregistering sessions (conversation-status-manager.ts).
use private_agent_platform.Base.{
  String, true, Option, none, some, ◌==◌, ◌≡◌, sym, inl, inr, if◌then◌else◌, is_truthy, eq_iff,
  eq_refl, arith, Option-cases,
}
use mathlib.Core.Option
use private_agent_platform.JsMap
use private_agent_platform.JsMap.{JsMap}
use private_agent_platform.JsMap.Laws.{
  get-set, get-delete, IsDistinct, set-IsDistinct, delete-IsDistinct,
}
use private_agent_platform.Status.{
  Status, ContextInput, register_active_session, unregister_active_session, drop_session_mapping,
  drop_streaming_mapping, set_mapping, store_context, get_streaming_id, get_session_id,
  get_conversation_context, or_default, session_ended,
}
use private_agent_platform.Status.Bijection.{
  IsMatched, without, without_other, without_self, sessions_after, streams_after, after-only_active,
}

abbrev IsKeyed : Status → Type 0
IsKeyed s =
    IsDistinct s.session_to_streaming
    × IsDistinct s.streaming_to_session
    × IsDistinct s.session_context

drop_session-IsKeyed :
    (t c : String) (s : Status) → IsKeyed s → IsKeyed (drop_session_mapping t c s)
unfolding drop_session_mapping
drop_session-IsKeyed t c s k = elim (Option-cases (JsMap.get c s.session_to_streaming)) [
  | inl e ↦ rw (e, drop_session_mapping) k
  | inr (old, e) ↦
      rw (e, drop_session_mapping)
        (ground (arith, delete-IsDistinct old s.streaming_to_session k.1))
]

drop_streaming-IsKeyed :
    (t c : String) (s : Status) → IsKeyed s → IsKeyed (drop_streaming_mapping t c s)
unfolding drop_streaming_mapping
drop_streaming-IsKeyed t c s k = elim (Option-cases (JsMap.get t s.streaming_to_session)) [
  | inl e ↦ rw (e, drop_streaming_mapping) k
  | inr (old, e) ↦
      rw (e, drop_streaming_mapping)
        (ground (
          arith,
          delete-IsDistinct old s.session_to_streaming k.0,
          delete-IsDistinct old s.session_context k.2,
        ))
]

store_context-IsKeyed :
    (now c : String) (x : Option ContextInput) (s : Status)
    → IsKeyed s
    → IsKeyed (store_context now c x s)
unfolding store_context
store_context-IsKeyed now c none s k = k
store_context-IsKeyed now c (some x) s k = (k.0, k.1, set-IsDistinct c _ s.session_context k.2)

register-IsKeyed :
    (now t c : String) (x : Option ContextInput) (s : Status)
    → IsKeyed s
    → IsKeyed (register_active_session now t c x s).0
unfolding register_active_session set_mapping
register-IsKeyed now t c x s k =
    let k₁ = drop_session-IsKeyed t c s k in
    let k₂ = drop_streaming-IsKeyed t c _ k₁ in
    store_context-IsKeyed now c x _ (set-IsDistinct c t _ k₂.0, set-IsDistinct t c _ k₂.1, k₂.2)

-- Registering a stream and a session with non-empty ids keeps the invariant: the two maps are
-- inverse to one another, no key stands twice, no stored id is empty, and only active sessions
-- have a context.
pub register_active_session-IsMatched :
    (now streaming claude : String) (context : Option ContextInput) (s : Status)
    → is_truthy streaming ≡ true
    → is_truthy claude ≡ true
    → IsMatched s
    → IsMatched (register_active_session now streaming claude context s).0
register_active_session-IsMatched now t c x s ht hc v =
    let k =
      register-IsKeyed now t c x s (v.sessions_distinct, v.streams_distinct, v.contexts_distinct) in
    record {
      sessions_distinct = k.0;
      streams_distinct = k.1;
      contexts_distinct = k.2;
      forth = λ c' t' h. ground (
        arith,
        sessions_after now t c x s v c',
        streams_after now t c x s v t',
        eq_iff c c',
        eq_iff t t',
        v.forth c' t',
        v.back t' c,
        eq_iff c' c,
        eq_iff t' t,
      );
      back = λ t' c' h. ground (
        arith,
        sessions_after now t c x s v c',
        streams_after now t c x s v t',
        eq_iff c c',
        eq_iff t t',
        v.back t' c',
        v.forth c' t,
        eq_iff c' c,
        eq_iff t' t,
      );
      named =
          λ c' t' h. ground (arith, sessions_after now t c x s v c', eq_iff c c', v.named c' t');
      only_active = after-only_active now t c x s v;
    }

-- What each lookup answers after a registration: the new pair, and every old pair that shares
-- neither the session nor the stream.
pub register_active_session-lookup :
    (now streaming claude : String) (context : Option ContextInput) (s : Status)
    → IsMatched s
    → (c t : String)
    → let s' = (register_active_session now streaming claude context s).0 in
      (get_streaming_id c s'
        ≡ (if claude == c then some streaming else without streaming (get_streaming_id c s)))
      × (get_session_id t s'
          ≡ (if streaming == t then some claude else without claude (get_session_id t s)))
unfolding get_streaming_id get_session_id
register_active_session-lookup now streaming claude context s v c t = (
  sessions_after now streaming claude context s v c,
  streams_after now streaming claude context s v t,
)

-- What each lookup answers after a stream ends, and which event is emitted: the stream and its
-- session are gone, every other pair stays, and the event names the session that ended. An unknown
-- stream changes nothing.
pub unregister_active_session-lookup :
    (streaming : String) (s : Status)
    → IsMatched s
    → (c t : String)
    → let (s', event) = unregister_active_session streaming s in
      (get_streaming_id c s' ≡ without streaming (get_streaming_id c s))
      × (get_session_id t s' ≡ (if streaming == t then none else get_session_id t s))
      × (event ≡ Option.map (session_ended streaming) (get_session_id streaming s))
unfolding get_streaming_id get_session_id unregister_active_session
unregister_active_session-lookup streaming s v c t =
    elim (Option-cases (JsMap.get streaming s.streaming_to_session)) [
      | inl e ↦ (
        rw (e, unregister_active_session)
            (sym (without_other streaming _ (λ h. cc (v.forth c streaming h)))),
        rw (e, unregister_active_session) (ground (arith, eq_iff streaming t)),
        rw (e, unregister_active_session),
      )
      | inr (old, e) ↦
          let named = (v.named old streaming (v.back streaming old e)).0 in
          let back = v.back streaming old e in
          (
            rw (e, unregister_active_session, named, get-delete old c s.session_to_streaming)
                (ground (
                  arith,
                  eq_iff old c,
                  v.forth c streaming,
                  without_self streaming,
                  without_other streaming (JsMap.get c s.session_to_streaming),
                )),
            rw (e, unregister_active_session, named, get-delete streaming t s.streaming_to_session),
            rw (e, unregister_active_session, named),
          )
    ]

-- A registration with a context stores it under the session, with the time of the registration.
pub register_active_session-context :
    (now streaming claude : String) (context : ContextInput) (s : Status)
    → get_conversation_context claude
        (register_active_session now streaming claude (some context) s).0
      ≡ some (record {
        initial_prompt = context.initial_prompt;
        working_directory = context.working_directory;
        model = or_default context.model "default";
        timestamp = now;
        inherited_messages = context.inherited_messages;
      })
unfolding register_active_session store_context get_conversation_context
register_active_session-context now streaming claude context s = rw (
  get-set claude claude _
      (set_mapping streaming claude (
        drop_streaming_mapping streaming claude
          (drop_session_mapping streaming claude s))).session_context,
  eq_refl claude,
)
