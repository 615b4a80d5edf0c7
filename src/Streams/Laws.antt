-- ===== src/Streams/Laws.antt =====
-- Lemmas on the clients of a stream under the operations of stream-manager.ts.
use private_agent_platform.Base.{
  ℕ, String, Bool, true, false, not, ◌||◌, ◌&&◌, List, [], ◌∷◌, ◌++◌, map, if◌then◌else◌, eqb,
  eq_iff, filter, filter-congr, filter-always, filter-filter, any, ◌==◌, ◌≡◌, refl, sym, ◌∙◌, ap,
  arith, Option-cases, Bool-cases, inl, inr,
}
use mathlib.Core.List.{append_assoc, append-nil}
use private_agent_platform.JsMap
use private_agent_platform.JsMap.{JsMap}
use private_agent_platform.JsMap.Laws.{get-set, get-delete}
use private_agent_platform.JsonLines.{is_empty}
use private_agent_platform.Streams.{
  Streams, event, or_empty, remove, send_sse_event, stop_if_idle, without_client, remove_client,
  send_each, remove_each,
}

empty_of {ℓ} : {A : Type ℓ} (xs : List A) → is_empty xs ≡ true → xs ≡ []
empty_of [] h = refl
empty_of (x ∷ xs) h = cc

not_or : (a b : Bool) → not a && not b ≡ not (a || b)
not_or true b = refl
not_or false b = refl

without_client-get :
    (streaming j : String) (r : ℕ) (m : JsMap (List ℕ))
    → or_empty (JsMap.get j (without_client streaming r m))
      ≡ (if streaming == j then remove r (or_empty (JsMap.get j m)) else or_empty (JsMap.get j m))
unfolding without_client
without_client-get streaming j r m = elim (Option-cases (JsMap.get streaming m)) [
  | inl e ↦ rw (e, without_client) (ground (arith, eq_iff streaming j))
  | inr (rs, e) ↦
      rw (e, without_client)
        (ground (
          arith,
          eq_iff streaming j,
          get-delete streaming j m,
          get-set streaming j (remove r rs) m,
          empty_of (remove r rs),
        ))
]

module _ {E : Type 0} where
  abbrev pub clients_of : String → Streams E → List ℕ
  clients_of j s = or_empty (JsMap.get j s.clients)

  pub stop_if_idle_keeps :
      (s : Streams E)
      → ((stop_if_idle s).clients ≡ s.clients)
        × ((stop_if_idle s).written ≡ s.written)
        × ((stop_if_idle s).dead ≡ s.dead)
  unfolding stop_if_idle
  stop_if_idle_keeps s = ground arith

  remove_client-clients :
      (streaming j : String) (r : ℕ) (s : Streams E)
      → (clients_of j (remove_client streaming r s)
          ≡ (if streaming == j then remove r (clients_of j s) else clients_of j s))
        × ((remove_client streaming r s).written ≡ s.written)
        × ((remove_client streaming r s).dead ≡ s.dead)
  unfolding remove_client
  remove_client-clients streaming j r s =
      let s₁ = record s {
        clients = without_client streaming r s.clients;
        disconnected = s.disconnected ++ (streaming ∷ []);
      } in
      let keeps = stop_if_idle_keeps s₁ in
      (
        ap (λ m. or_empty (JsMap.get j m)) keeps.0 ∙ without_client-get streaming j r s.clients,
        keeps.1,
        keeps.2,
      )

  pub remove_each-clients :
      (streaming j : String) (rs : List ℕ) (s : Streams E)
      → (clients_of j (remove_each streaming rs s) ≡ (
          if streaming == j
          then filter (λ x. not (any (λ y. eqb x y) rs)) (clients_of j s)
          else clients_of j s))
        × ((remove_each streaming rs s).written ≡ s.written)
        × ((remove_each streaming rs s).dead ≡ s.dead)
  unfolding remove_each
  remove_each-clients streaming j [] s =
      (ground (arith, filter-always (clients_of j s)), refl, refl)
  remove_each-clients streaming j (r ∷ rs) s =
      let first = remove_client-clients streaming j r s in
      let later = remove_each-clients streaming j rs (remove_client streaming r s) in
      (
        later.0 ∙ elim (Bool-cases (streaming == j)) [
          | inl e ↦
              rw (e, first.0, e, filter-filter)
                (filter-congr _ _ (clients_of j s) (λ x. not_or (eqb x r) (any (λ y. eqb x y) rs)))
          | inr e ↦ rw (e, first.0, e)
        ],
        later.1 ∙ first.1,
        later.2 ∙ first.2,
      )

  -- The loop of `broadcast` writes the event once to each live client and returns the dead ones.
  pub send_each-live :
      (rs : List ℕ) (e : E) (s : Streams E)
      → let (s', dead) = send_each rs e s in
        (s'.clients ≡ s.clients)
        × (s'.dead ≡ s.dead)
        × (s'.written ≡ s.written ++ map (λ r. (r, event e)) (filter (λ r. not (s.dead r)) rs))
        × (dead ≡ filter s.dead rs)
        × (s'.heartbeat ≡ s.heartbeat)
  unfolding send_each send_sse_event
  send_each-live [] e s = (refl, refl, sym (append-nil s.written), refl, refl)
  send_each-live (r ∷ rs) e s = elim (Bool-cases (s.dead r)) [
    | inl d ↦ rw d (let h = send_each-live rs e s in (h.0, h.1, h.2, ap (◌∷◌ r) h.3, h.4))
    | inr d ↦ rw d (
        let s₁ = record s { written = s.written ++ ((r, event e) ∷ []) } in
        let h = send_each-live rs e s₁ in
        (h.0, h.1, h.2 ∙ append_assoc s.written ((r, event e) ∷ []) _, h.3, h.4))
  ]
