-- ===== src/Streams/Delivery.antt =====
-- Lemmas on the messages and clients of a broadcast of stream-manager.ts.
use private_agent_platform.Base.{
  ℕ, String, Bool, true, not, ◌&&◌, List, [], ◌∷◌, ◌++◌, map, if◌then◌else◌, eqb, eqb_iff, filter,
  filter-congr_on, any, All, ◌==◌, ◌≡◌, refl, sym, ◌∙◌, ap, arith, Bool-cases, inl, inr, eq_iff,
}
use mathlib.Core.List.{append-nil}
use private_agent_platform.JsMap
use private_agent_platform.JsonLines.{is_empty}
use private_agent_platform.Streams.{Streams, event, send_each, remove_each, broadcast, or_empty}
use private_agent_platform.Streams.Laws.{clients_of, remove_each-clients, send_each-live}

any-filter :
    (d : ℕ → Bool) (x : ℕ) (rs : List ℕ)
    → any (λ y. eqb x y) (filter d rs) ≡ (any (λ y. eqb x y) rs && d x)
any-filter d x [] = refl
any-filter d x (r ∷ rs) = elim (Bool-cases (eqb x r)) [
  | inl e ↦ let same = (eqb_iff x r).0 e in ground (arith, any-filter d x rs, ap d same)
  | inr e ↦ ground (arith, any-filter d x rs)
]

All-weaken :
    (r : ℕ) (rs xs : List ℕ)
    → All (λ x. any (λ y. eqb x y) rs ≡ true) xs
    → All (λ x. any (λ y. eqb x y) (r ∷ rs) ≡ true) xs
All-weaken r rs [] a = tt
All-weaken r rs (x ∷ xs) a = (ground (arith, a.0), All-weaken r rs xs a.1)

pub All-self : (rs : List ℕ) → All (λ x. any (λ y. eqb x y) rs ≡ true) rs
All-self [] = tt
All-self (r ∷ rs) = (ground (arith, (eqb_iff r r).1 refl), All-weaken r rs rs (All-self rs))

All-dead :
    (d : ℕ → Bool) (rs xs : List ℕ)
    → All (λ x. any (λ y. eqb x y) rs ≡ true) xs
    → All (λ x. not (any (λ y. eqb x y) (filter d rs)) ≡ not (d x)) xs
All-dead d rs [] a = tt
All-dead d rs (x ∷ xs) a = (rw (any-filter d x rs, a.0), All-dead d rs xs a.1)

-- What is left when the dead clients are removed.
survivors :
    (d : ℕ → Bool) (rs : List ℕ)
    → filter (λ x. not (any (λ y. eqb x y) (filter d rs))) rs ≡ filter (λ x. not (d x)) rs
survivors d rs = filter-congr_on _ _ rs (All-dead d rs rs (All-self rs))

module _ {E : Type 0} where
  -- A broadcast writes the event exactly once to each client of the stream that is alive, in the
  -- order of connection, and to nobody else. The dead clients of the stream are dropped; those of
  -- other streams stay.
  pub broadcast-delivers :
      (streaming j : String) (e : E) (s : Streams E)
      → let s' = broadcast streaming e s in
        (s'.written
          ≡ s.written
            ++ map (λ r. (r, event e)) (filter (λ r. not (s.dead r)) (clients_of streaming s)))
        × (clients_of j s' ≡ (
            if streaming == j
            then filter (λ r. not (s.dead r)) (clients_of j s)
            else clients_of j s))
  unfolding broadcast
  broadcast-delivers streaming j e s = go (clients_of streaming s) refl
    where
      go :
          (rs : List ℕ)
          → clients_of streaming s ≡ rs
          → let s' =
              if is_empty rs
              then s
              else remove_each streaming (send_each rs e s).1 (send_each rs e s).0 in
            (s'.written
              ≡ s.written
                ++ map (λ r. (r, event e)) (filter (λ r. not (s.dead r)) (clients_of streaming s)))
            × (clients_of j s' ≡ (
                if streaming == j
                then filter (λ r. not (s.dead r)) (clients_of j s)
                else clients_of j s))
      go [] h = (rw h (sym (append-nil s.written)), ground (arith, eq_iff streaming j, h))
      go (r ∷ rs) h =
          let all = r ∷ rs in
          let sent = send_each-live all e s in
          let gone = remove_each-clients streaming j (send_each all e s).1 (send_each all e s).0 in
          let left : clients_of j (send_each all e s).0 ≡ clients_of j s =
            ap (λ m. or_empty (JsMap.get j m)) sent.0 in
          (
            gone.1 ∙ sent.2 ∙ rw h,
            gone.0
                ∙ rw (left, sent.3)
                    (elim (Bool-cases (streaming == j)) [
                      | inl same ↦
                          let k = (eq_iff streaming j).0 same in
                          rw (same, ← k, h) (survivors s.dead all)
                      | inr other ↦ rw other
                    ]),
          )
