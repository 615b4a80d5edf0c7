-- ===== src/Streams/Tidy.antt =====
-- The invariant of stream-manager.ts on its clients and its heartbeat, and lemmas on it.
use private_agent_platform.Base.{
  ℕ, String, true, false, not, List, [], ◌∷◌, eqb, ◌≡◌, refl, sym, ◌∙◌, ap, arith, Bool-cases,
  Option-cases, inl, inr,
}
use private_agent_platform.JsMap
use private_agent_platform.JsMap.{JsMap}
use private_agent_platform.JsMap.Laws.{IsDistinct, set-IsDistinct, delete-IsDistinct}
use private_agent_platform.JsonLines.{is_empty}
use private_agent_platform.Streams.{
  Streams, total, or_empty, add, remove, send_sse_event, add_client, stop_if_idle, remove_client,
  without_client, stop_heartbeat, get_total_client_count, start_heartbeat,
}

-- No stream is kept without clients.
abbrev IsBusy : JsMap (List ℕ) → Type 0
IsBusy [] = Unit
IsBusy ((k, rs) ∷ m) = (is_empty rs ≡ false) × IsBusy m

pub record IsTidy {E : Type 0} (s : Streams E) : Type 0 where
  pub distinct : IsDistinct s.clients
  pub busy : IsBusy s.clients
  pub beating : s.heartbeat ≡ not (is_empty s.clients)

set-IsBusy :
    (k : String) (rs : List ℕ) (m : JsMap (List ℕ))
    → is_empty rs ≡ false
    → IsBusy m
    → IsBusy (JsMap.set k rs m)
unfolding JsMap.set
set-IsBusy k rs [] h b = (h, tt)
set-IsBusy k rs ((j, xs) ∷ m) h b = ground (arith, set-IsBusy k rs m h b.1)

pub delete-IsBusy : (k : String) (m : JsMap (List ℕ)) → IsBusy m → IsBusy (JsMap.delete k m)
unfolding JsMap.delete
delete-IsBusy k [] b = tt
delete-IsBusy k ((j, xs) ∷ m) b = ground (arith, delete-IsBusy k m b.1)

set-nonempty : (k : String) (rs : List ℕ) (m : JsMap (List ℕ)) → is_empty (JsMap.set k rs m) ≡ false
unfolding JsMap.set
set-nonempty k rs [] = refl
set-nonempty k rs ((j, xs) ∷ m) = ground arith

add-nonempty : (r : ℕ) (rs : List ℕ) → is_empty (add r rs) ≡ false
add-nonempty r [] = refl
add-nonempty r (x ∷ rs) = ground arith

total-idle : (m : JsMap (List ℕ)) → IsBusy m → eqb (total m) 0 ≡ is_empty m
unfolding total
total-idle [] b = refl
total-idle ((k, []) ∷ m) b = cc
total-idle ((k, r ∷ rs) ∷ m) b = ground arith

without_client-IsDistinct :
    (streaming : String) (r : ℕ) (m : JsMap (List ℕ))
    → IsDistinct m
    → IsBusy m
    → IsDistinct (without_client streaming r m) × IsBusy (without_client streaming r m)
unfolding without_client
without_client-IsDistinct streaming r m d b = elim (Option-cases (JsMap.get streaming m)) [
  | inl e ↦ rw (e, without_client) (d, b)
  | inr (rs, e) ↦
      rw (e, without_client)
        (elim (Bool-cases (is_empty (remove r rs))) [
          | inl gone ↦ rw gone (delete-IsDistinct streaming m d, delete-IsBusy streaming m b)
          | inr left ↦ rw left (set-IsDistinct streaming _ m d, set-IsBusy streaming _ m left b)
        ])
]

without_client_none :
    (streaming : String) (r : ℕ) (m : JsMap (List ℕ))
    → is_empty (without_client streaming r m) ≡ false
    → is_empty m ≡ false
unfolding without_client JsMap.get
without_client_none streaming r [] h = h
without_client_none streaming r (e ∷ m) h = refl

module _ {E : Type 0} where
  -- The last step of the operations that remove clients.
  pub stop_if_idle-IsTidy :
      (s : Streams E)
      → IsDistinct s.clients
      → IsBusy s.clients
      → (is_empty s.clients ≡ false → s.heartbeat ≡ true)
      → IsTidy (stop_if_idle s)
  unfolding stop_if_idle get_total_client_count
  stop_if_idle-IsTidy s d b h = elim (Bool-cases (is_empty s.clients)) [
    | inl e ↦
        rw (total-idle s.clients b, e)
          (unfold stop_heartbeat in (record { distinct = d; busy = b; beating = rw e }))
    | inr e ↦
        rw (total-idle s.clients b, e) (record { distinct = d; busy = b; beating = h e ∙ rw e })
  ]

  -- Removing a client keeps the state tidy.
  pub remove_client-IsTidy :
      (streaming : String) (r : ℕ) (s : Streams E) → IsTidy s → IsTidy (remove_client streaming r s)
  unfolding remove_client
  remove_client-IsTidy streaming r s v =
      let w = without_client-IsDistinct streaming r s.clients v.distinct v.busy in
      stop_if_idle-IsTidy _ w.0 w.1
        (λ h. v.beating ∙ ap not (without_client_none streaming r s.clients h))

  -- Adding a client whose connection is alive keeps the state tidy, and the heartbeat runs.
  pub add_client-IsTidy :
      (streaming : String) (r : ℕ) (s : Streams E)
      → s.dead r ≡ false
      → IsTidy s
      → let (s', done) = add_client streaming r s in
        IsTidy s' × (s'.heartbeat ≡ true) × (done ≡ true)
  unfolding add_client send_sse_event start_heartbeat
  add_client-IsTidy streaming r s alive v =
      let rs = add r (or_empty (JsMap.get streaming s.clients)) in
      rw alive (
        record {
          distinct = set-IsDistinct streaming rs s.clients v.distinct;
          busy =
              set-IsBusy streaming rs s.clients
                (add-nonempty r (or_empty (JsMap.get streaming s.clients))) v.busy;
          beating = sym (ap not (set-nonempty streaming rs s.clients));
        },
        refl,
        refl,
      )

  -- A response that is dead when it is added stays registered although the call throws: where
  -- nothing was connected before, it is the one client of its stream afterwards, and no other stream
  -- has any; no heartbeat runs, and nothing was written.
  pub add_client_dead :
      (streaming : String) (r : ℕ) (s : Streams E)
      → s.dead r ≡ true
      → s.clients ≡ []
      → IsTidy s
      → let (s', done) = add_client streaming r s in
        (done ≡ false)
        × (s'.clients ≡ (streaming, r ∷ []) ∷ [])
        × (s'.heartbeat ≡ false)
        × (s'.written ≡ s.written)
        × (¬ IsTidy s')
  unfolding add_client send_sse_event JsMap.get JsMap.set
  add_client_dead streaming r s dead none_ v =
      let off : s.heartbeat ≡ false = v.beating ∙ ap (λ m. not (is_empty m)) none_ in
      rw (dead, none_) (refl, refl, off, refl, λ w. cc w.beating)
