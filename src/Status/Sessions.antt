-- ===== src/Status/Sessions.antt =====
-- Sequences of registrations and unregistrations (conversation-status-manager.ts).
use private_agent_platform.Base.{
  String, true, List, [], ◌∷◌, Option, none, some, ◌≡◌, inl, inr, is_truthy, eq_iff, arith,
  Option-cases, eq_refl, All, ◌∙◌,
}
use private_agent_platform.JsMap
use private_agent_platform.JsMap.Laws.{get-delete, delete-IsDistinct}
use private_agent_platform.Status.{
  Status, ContextInput, new, register_active_session, unregister_active_session, get_streaming_id,
  get_session_id,
}
use private_agent_platform.Status.Bijection.{IsMatched, without_self, new-IsMatched}
use private_agent_platform.Status.Mappings.{
  register_active_session-IsMatched, unregister_active_session-lookup,
}

pub unregister-IsMatched :
    (streaming : String) (s : Status)
    → IsMatched s
    → IsMatched (unregister_active_session streaming s).0
unfolding unregister_active_session
unregister-IsMatched streaming s v =
    elim (Option-cases (JsMap.get streaming s.streaming_to_session)) [
      | inl e ↦ rw (e, unregister_active_session) v
      | inr (old, e) ↦
          let pair = v.back streaming old e in
          let named = (v.named old streaming pair).0 in
          rw (e, unregister_active_session, named)
            (record {
              sessions_distinct = delete-IsDistinct old _ v.sessions_distinct;
              streams_distinct = delete-IsDistinct streaming _ v.streams_distinct;
              contexts_distinct = delete-IsDistinct old _ v.contexts_distinct;
              forth = λ c t h. ground (
                arith,
                get-delete old c s.session_to_streaming,
                get-delete streaming t s.streaming_to_session,
                eq_iff old c,
                eq_iff streaming t,
                v.forth c t,
              );
              back = λ t c h. ground (
                arith,
                get-delete old c s.session_to_streaming,
                get-delete streaming t s.streaming_to_session,
                eq_iff old c,
                eq_iff streaming t,
                v.back t c,
              );
              named = λ c t h. ground (arith, get-delete old c s.session_to_streaming, v.named c t);
              only_active = λ c h. ground (
                arith,
                get-delete old c s.session_to_streaming,
                get-delete old c s.session_context,
                v.only_active c,
              );
            })
    ]

-- The calls that change the state, with the time at which a registration is made.
pub data Call : Type 0 where
  register : String → String → String → Option ContextInput → Call
  unregister : String → Call

abbrev pub IsNamed : Call → Type 0
IsNamed (register now streaming claude context) =
    (is_truthy streaming ≡ true) × (is_truthy claude ≡ true)
IsNamed (unregister streaming) = Unit

unfoldable pub step : Call → Status → Status
step (register now streaming claude context) s =
    (register_active_session now streaming claude context s).0
step (unregister streaming) s = (unregister_active_session streaming s).0

unfoldable pub run : List Call → Status → Status
run [] s = s
run (c ∷ cs) s = run cs (step c s)

step-IsMatched : (c : Call) (s : Status) → IsNamed c → IsMatched s → IsMatched (step c s)
unfolding step
step-IsMatched (register now t c x) s n v = register_active_session-IsMatched now t c x s n.0 n.1 v
step-IsMatched (unregister t) s n v = unregister-IsMatched t s v

run-IsMatched : (cs : List Call) (s : Status) → All IsNamed cs → IsMatched s → IsMatched (run cs s)
unfolding run
run-IsMatched [] s n v = v
run-IsMatched (c ∷ cs) s n v = run-IsMatched cs (step c s) n.1 (step-IsMatched c s n.0 v)

-- From the empty state, after any sequence of registrations with non-empty ids and of
-- unregistrations, the maps are inverse to one another, no key stands twice, no stored id is empty,
-- and only active sessions have a context.
pub run-new-IsMatched : (cs : List Call) → All IsNamed cs → IsMatched (run cs new)
run-new-IsMatched cs n = run-IsMatched cs new n new-IsMatched

-- Two sessions never share a stream, whatever registrations with non-empty ids and
-- unregistrations came before.
stream_unique :
    (cs : List Call) (c c' t : String)
    → All IsNamed cs
    → get_streaming_id c (run cs new) ≡ some t
    → get_streaming_id c' (run cs new) ≡ some t
    → c ≡ c'
unfolding get_streaming_id
stream_unique cs c c' t n h h' =
    let v = run-new-IsMatched cs n in cc (v.forth c t h, v.forth c' t h')

-- When a stream has ended, its session is not active and the stream has no session.
ended_stream :
    (cs : List Call) (t c : String)
    → All IsNamed cs
    → get_session_id t (run cs new) ≡ some c
    → let s = (unregister_active_session t (run cs new)).0 in
      (get_session_id t s ≡ none) × (get_streaming_id c s ≡ none)
unfolding get_session_id get_streaming_id
ended_stream cs t c n h =
    let v = run-new-IsMatched cs n in
    let l = unregister_active_session-lookup t (run cs new) v c t in
    (ground (arith, l.1, eq_iff t t), ground (arith, l.0, v.back t c h, without_self t))

unregister_unknown :
    (streaming : String) (s : Status)
    → JsMap.get streaming s.streaming_to_session ≡ none
    → (unregister_active_session streaming s).0 ≡ s
unfolding unregister_active_session
unregister_unknown streaming s e = rw (e, unregister_active_session)

-- To unregister a stream twice is to do it once.
pub unregister_again :
    (streaming : String) (s : Status)
    → IsMatched s
    → let s' = (unregister_active_session streaming s).0 in
      (unregister_active_session streaming s').0 ≡ s'
unfolding get_session_id
unregister_again streaming s v =
    unregister_unknown streaming (unregister_active_session streaming s).0
      ((unregister_active_session-lookup streaming s v "" streaming).1 ∙ rw (eq_refl streaming))
