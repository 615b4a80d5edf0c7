-- ===== src/Streams/Closing.antt =====
-- Broadcasts, closed streams and the shutdown of stream-manager.ts.
use private_agent_platform.Base.{
  ℕ, String, true, false, not, ◌||◌, List, [], ◌∷◌, Option, none, some, if◌then◌else◌, eqb, eqb_iff,
  eq_refl, filter, any, All, ◌==◌, ◌≡◌, refl, sym, ◌∙◌, ap, arith, Bool-cases, Option-cases, inl,
  inr,
}
use private_agent_platform.JsMap
use private_agent_platform.JsMap.{JsMap}
use private_agent_platform.JsMap.Index.{delete_all, matching, delete_all-matching}
use private_agent_platform.JsMap.Laws.{get-delete, IsDistinct, delete-IsDistinct, delete_absent}
use private_agent_platform.JsonLines.{is_empty}
use private_agent_platform.Streams.{
  Streams, or_empty, send_sse_event, remove_client, send_each, remove_each, broadcast, close_each,
  close_session, close_sessions, disconnect_all, stop_heartbeat,
}
use private_agent_platform.Streams.Delivery.{All-self}
use private_agent_platform.Streams.Laws.{clients_of, send_each-live, stop_if_idle_keeps}
use private_agent_platform.Streams.Tidy.{
  IsTidy, delete-IsBusy, stop_if_idle-IsTidy, remove_client-IsTidy,
}

delete_none :
    (k : String) (m : JsMap (List ℕ)) → is_empty (JsMap.delete k m) ≡ false → is_empty m ≡ false
unfolding JsMap.delete
delete_none k [] h = h
delete_none k (e ∷ m) h = refl

keys-matching : (m : JsMap (List ℕ)) → JsMap.keys m ≡ matching (λ rs. true) m
unfolding matching
keys-matching [] = refl
keys-matching ((k, rs) ∷ m) = ap (◌∷◌ k) (keys-matching m)

filter-never {ℓ} : {A : Type ℓ} (xs : List A) → filter (λ x. false) xs ≡ []
filter-never [] = refl
filter-never (x ∷ xs) = filter-never xs

module _ {E : Type 0} where
  remove_each-IsTidy :
      (streaming : String) (rs : List ℕ) (s : Streams E)
      → IsTidy s
      → IsTidy (remove_each streaming rs s)
  unfolding remove_each
  remove_each-IsTidy streaming [] s v = v
  remove_each-IsTidy streaming (r ∷ rs) s v =
      remove_each-IsTidy streaming rs (remove_client streaming r s)
        (remove_client-IsTidy streaming r s v)

  IsTidy-same :
      (s s' : Streams E)
      → s'.clients ≡ s.clients
      → s'.heartbeat ≡ s.heartbeat
      → IsTidy s
      → IsTidy s'
  IsTidy-same s s' c h v = record {
    distinct = rw c v.distinct;
    busy = rw c v.busy;
    beating = h ∙ v.beating ∙ ap (λ m. not (is_empty m)) (sym c);
  }

  -- A broadcast keeps the state tidy, whichever clients turn out to be dead.
  pub broadcast-IsTidy :
      (streaming : String) (e : E) (s : Streams E) → IsTidy s → IsTidy (broadcast streaming e s)
  unfolding broadcast
  broadcast-IsTidy streaming e s v =
      let rs = clients_of streaming s in
      let sent = send_each-live rs e s in
      let s' = (send_each rs e s).0 in
      elim (Bool-cases (is_empty rs)) [
        | inl e₁ ↦ rw e₁ v
        | inr e₁ ↦ rw e₁ (
            remove_each-IsTidy streaming (send_each rs e s).1 s' (IsTidy-same s s' sent.0 sent.4 v))
      ]

  close_each_keeps :
      (streaming : String) (rs : List ℕ) (s : Streams E)
      → ((close_each streaming rs s).clients ≡ s.clients)
        × ((close_each streaming rs s).heartbeat ≡ s.heartbeat)
  unfolding close_each send_sse_event
  close_each_keeps streaming [] s = (refl, refl)
  close_each_keeps streaming (r ∷ rs) s = elim (Bool-cases (s.dead r)) [
    | inl d ↦ rw (d, close_each) (close_each_keeps streaming rs s)
    | inr d ↦ rw (d, close_each) (close_each_keeps streaming rs _)
  ]

  -- Every response of the loop is ended, or was dead before.
  close_each-dead :
      (streaming : String) (rs : List ℕ) (s : Streams E) (r : ℕ)
      → (close_each streaming rs s).dead r ≡ (any (λ x. eqb r x) rs || s.dead r)
  unfolding close_each send_sse_event
  close_each-dead streaming [] s r = refl
  close_each-dead streaming (x ∷ rs) s r = elim (Bool-cases (s.dead x)) [
    | inl d ↦
        rw (d, close_each)
          (close_each-dead streaming rs s r ∙ elim (Bool-cases (eqb r x)) [
            | inl e ↦ let same = (eqb_iff r x).0 e in ground (arith, ap s.dead same)
            | inr e ↦ ground arith
          ])
    | inr d ↦ rw (d, close_each) (close_each-dead streaming rs _ r ∙ ground arith)
  ]

  pub close_session-IsTidy :
      (streaming : String) (s : Streams E) → IsTidy s → IsTidy (close_session streaming s)
  unfolding close_session
  close_session-IsTidy streaming s v = elim (Option-cases (JsMap.get streaming s.clients)) [
    | inl e ↦ rw (e, close_session) v
    | inr (rs, e) ↦
        rw (e, close_session)
          (let k = close_each_keeps streaming rs s in
            stop_if_idle-IsTidy _ (rw k.0 (delete-IsDistinct streaming s.clients v.distinct))
              (rw k.0 (delete-IsBusy streaming s.clients v.busy))
              (λ h. k.1 ∙ v.beating ∙ ap not (delete_none streaming s.clients (rw k.0 at h))))
  ]

  close_session-clients :
      (streaming : String) (s : Streams E)
      → (close_session streaming s).clients ≡ JsMap.delete streaming s.clients
  unfolding close_session
  close_session-clients streaming s = elim (Option-cases (JsMap.get streaming s.clients)) [
    | inl e ↦ rw (e, close_session) (sym (delete_absent streaming s.clients e))
    | inr (rs, e) ↦
        rw (e, close_session)
          ((stop_if_idle_keeps _).0
            ∙ ap (JsMap.delete streaming) (close_each_keeps streaming rs s).0)
  ]

  -- A stream without clients is closed already.
  close_session_absent :
      (streaming : String) (s : Streams E)
      → JsMap.get streaming s.clients ≡ none
      → close_session streaming s ≡ s
  unfolding close_session
  close_session_absent streaming s e = rw (e, close_session)

  -- To close a stream twice is to close it once.
  pub close_session_again :
      (streaming : String) (s : Streams E)
      → close_session streaming (close_session streaming s) ≡ close_session streaming s
  close_session_again streaming s = close_session_absent streaming (close_session streaming s) (
      rw (
        close_session-clients streaming s,
        get-delete streaming streaming s.clients,
        eq_refl streaming,
      ))

  close_session-dead :
      (streaming : String) (s : Streams E) (rs : List ℕ) (r : ℕ)
      → JsMap.get streaming s.clients ≡ some rs
      → (close_session streaming s).dead r ≡ (any (λ x. eqb r x) rs || s.dead r)
  unfolding close_session
  close_session-dead streaming s rs r e =
      rw (e, close_session)
        (let s₁ = close_each streaming rs s in
          let s₂ = record s₁ { clients = JsMap.delete streaming s₁.clients } in
          ap (λ d. d r) (stop_if_idle_keeps s₂).2 ∙ close_each-dead streaming rs s r)

  All-ended :
      (streaming : String) (s : Streams E) (rs xs : List ℕ)
      → JsMap.get streaming s.clients ≡ some rs
      → All (λ x. any (λ y. eqb x y) rs ≡ true) xs
      → All (λ r. (close_session streaming s).dead r ≡ true) xs
  All-ended streaming s rs [] e a = tt
  All-ended streaming s rs (x ∷ xs) e a =
      (close_session-dead streaming s rs x e ∙ rw a.0, All-ended streaming s rs xs e a.1)

  ended_clients :
      (streaming : String) (s : Streams E) (found : Option (List ℕ))
      → JsMap.get streaming s.clients ≡ found
      → All (λ r. (close_session streaming s).dead r ≡ true) (or_empty found)
  ended_clients streaming s none e = tt
  ended_clients streaming s (some rs) e = All-ended streaming s rs rs e (All-self rs)

  -- Closing a stream removes all its clients and no others, leaves each of them ended or dead, and
  -- keeps the state tidy.
  pub close_session-ends :
      (streaming j : String) (s : Streams E)
      → IsTidy s
      → let s' = close_session streaming s in
        IsTidy s'
        × (clients_of j s' ≡ (if streaming == j then [] else clients_of j s))
        × All (λ r. s'.dead r ≡ true) (clients_of streaming s)
  close_session-ends streaming j s v = (
    close_session-IsTidy streaming s v,
    ap (λ m. or_empty (JsMap.get j m)) (close_session-clients streaming s)
        ∙ ground (arith, get-delete streaming j s.clients),
    ended_clients streaming s (JsMap.get streaming s.clients) refl,
  )

  close_sessions-clients :
      (ks : List String) (s : Streams E) → (close_sessions ks s).clients ≡ delete_all ks s.clients
  unfolding close_sessions delete_all
  close_sessions-clients [] s = refl
  close_sessions-clients (k ∷ ks) s =
      close_sessions-clients ks (close_session k s) ∙ ap (delete_all ks) (close_session-clients k s)

  -- After the shutdown no client is registered and the heartbeat is off.
  disconnect_all-none :
      (s : Streams E)
      → IsDistinct s.clients
      → ((disconnect_all s).clients ≡ []) × ((disconnect_all s).heartbeat ≡ false)
  unfolding disconnect_all stop_heartbeat
  disconnect_all-none s d = (
    close_sessions-clients (JsMap.keys s.clients) s
        ∙ ap (λ ks. delete_all ks s.clients) (keys-matching s.clients)
        ∙ delete_all-matching (λ rs. true) s.clients d
        ∙ filter-never s.clients,
    refl,
  )
