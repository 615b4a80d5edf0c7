-- ===== src/History/Chain/Complete.antt =====
-- Lemmas on the messages that `buildMessageChain` of claude-history-reader.ts returns.
use mathlib.Core.List.Perm
use mathlib.Core.List.{Perm, perm_middle, perm_append_singleton}
use private_agent_platform.Base.{
  ℕ, zero, suc, ◌≤◌, ◌<◌, String, Bool, false, not, List, [], ◌∷◌, ◌++◌, Option, some, ◌==◌, filter,
  filter-congr_on, find?, length, length-filter-le, All, ◌≡◌, refl, sym, ap, subst, ◌⊎◌, inl, inr,
  arith, eq_iff, eq_refl, Bool-cases, Option-cases,
}
use private_agent_platform.Types.{ConversationMessage}
use private_agent_platform.History.Chain.{
  Walk, contains, is_head, is_reply_to, for_each, sort, traverse, build_message_chain,
}
use private_agent_platform.History.Chain.Sorting.{sort-perm, sort-All}

-- Membership by position.
abbrev pub In : ConversationMessage → List ConversationMessage → Type 0
In m [] = ⊥
In m (x ∷ xs) = (m ≡ x) ⊎ In m xs

-- No two messages have one uuid.
abbrev pub HasDistinctIds : List ConversationMessage → Type 0
HasDistinctIds [] = Unit
HasDistinctIds (m ∷ ms) = All (λ x. (m.uuid == x.uuid) ≡ false) ms × HasDistinctIds ms

abbrev is_visited : List String → ConversationMessage → Bool
is_visited v x = contains x.uuid v

abbrev unvisited : List ConversationMessage → List String → ℕ
unvisited ms v = length (filter (λ x. not (is_visited v x)) ms)

All-In :
    (P : ConversationMessage → Type 0) (m : ConversationMessage) (xs : List ConversationMessage)
    → All P xs
    → In m xs
    → P m
All-In P m [] a i = absurd i
All-In P m (x ∷ xs) a (inl e) = subst P (sym e) a.0
All-In P m (x ∷ xs) a (inr i) = All-In P m xs a.1 i

In-weaken :
    (x : ConversationMessage) (ms xs : List ConversationMessage)
    → All (λ c. In c ms) xs
    → All (λ c. In c (x ∷ ms)) xs
In-weaken x ms [] a = tt
In-weaken x ms (y ∷ xs) a = (inr a.0, In-weaken x ms xs a.1)

In-self : (ms : List ConversationMessage) → All (λ c. In c ms) ms
In-self [] = tt
In-self (m ∷ ms) = (inl refl, In-weaken m ms ms (In-self ms))

filter-All :
    (P : ConversationMessage → Type 0) (q : ConversationMessage → Bool)
    (xs : List ConversationMessage)
    → All P xs
    → All P (filter q xs)
filter-All P q [] a = tt
filter-All P q (x ∷ xs) a = elim (Bool-cases (q x)) [
  | inl e ↦ rw e (a.0, filter-All P q xs a.1)
  | inr e ↦ rw e (filter-All P q xs a.1)
]

find-In :
    (q : ConversationMessage → Bool) (m : ConversationMessage) (xs : List ConversationMessage)
    → find? q xs ≡ some m
    → In m xs
find-In q m [] h = cc
find-In q m (x ∷ xs) h = elim (Bool-cases (q x)) [
  | inl e ↦ inl (ground arith)
  | inr e ↦ inr (find-In q m xs (ground arith))
]

filter-perm :
    (q : ConversationMessage → Bool) (xs : List ConversationMessage)
    → Perm (filter q xs ++ filter (λ x. not (q x)) xs) xs
filter-perm q [] = Perm.refl []
filter-perm q (x ∷ xs) = elim (Bool-cases (q x)) [
  | inl e ↦ rw e (Perm.cons x (filter-perm q xs))
  | inr e ↦ rw e (
      Perm.trans (perm_middle (filter q xs) (filter (λ y. not (q y)) xs))
        (Perm.cons x (filter-perm q xs)))
]

unvisited-le :
    (u : String) (v : List String) (ms : List ConversationMessage)
    → unvisited ms (u ∷ v) ≤ unvisited ms v
unvisited-le u v [] = omega arith
unvisited-le u v (x ∷ ms) = ground (arith, unvisited-le u v ms)

unvisited-lt :
    (m : ConversationMessage) (v : List String) (ms : List ConversationMessage)
    → In m ms
    → is_visited v m ≡ false
    → unvisited ms (m.uuid ∷ v) < unvisited ms v
unvisited-lt m v [] i h = absurd i
unvisited-lt m v (x ∷ ms) (inl e) h =
    let same = ap (λ y. y.uuid) e in
    ground (arith, unvisited-le m.uuid v ms, eq_iff m.uuid x.uuid, ap (λ s. contains s v) same)
unvisited-lt m v (x ∷ ms) (inr i) h = ground (arith, unvisited-lt m v ms i)

other_ids :
    (u : String) (v : List String) (xs : List ConversationMessage)
    → All (λ y. (u == y.uuid) ≡ false) xs
    → All (λ y. is_visited (u ∷ v) y ≡ is_visited v y) xs
other_ids u v [] a = tt
other_ids u v (y ∷ xs) a = (rw a.0, other_ids u v xs a.1)

visit_first :
    (x : ConversationMessage) (v : List String) (xs : List ConversationMessage)
    → All (λ y. (x.uuid == y.uuid) ≡ false) xs
    → is_visited v x ≡ false
    → Perm (filter (is_visited (x.uuid ∷ v)) (x ∷ xs)) (x ∷ filter (is_visited v) (x ∷ xs))
visit_first x v xs a h =
    rw
      (
        eq_refl x.uuid,
        h,
        filter-congr_on (is_visited (x.uuid ∷ v)) (is_visited v) xs (other_ids x.uuid v xs a),
      )
      (Perm.refl (x ∷ filter (is_visited v) xs))

differs :
    (m x : ConversationMessage) (xs : List ConversationMessage)
    → All (λ y. (x.uuid == y.uuid) ≡ false) xs
    → In m xs
    → (m.uuid == x.uuid) ≡ false
differs m x xs a i =
    let ne = All-In (λ y. (x.uuid == y.uuid) ≡ false) m xs a i in
    ground (arith, ne, eq_iff x.uuid m.uuid, eq_iff m.uuid x.uuid)

-- A message that is visited joins those that were.
visit-perm :
    (m : ConversationMessage) (v : List String) (ms : List ConversationMessage)
    → HasDistinctIds ms
    → In m ms
    → is_visited v m ≡ false
    → Perm (filter (is_visited (m.uuid ∷ v)) ms) (m ∷ filter (is_visited v) ms)
visit-perm m v [] d i h = absurd i
visit-perm m v (x ∷ xs) d (inl e) h =
    subst
      (λ y.
        is_visited v y ≡ false
        → Perm (filter (is_visited (y.uuid ∷ v)) (x ∷ xs)) (y ∷ filter (is_visited v) (x ∷ xs)))
      (sym e) (visit_first x v xs d.0) h
visit-perm m v (x ∷ xs) d (inr i) h =
    let ih = visit-perm m v xs d.1 i h in
    elim (Bool-cases (is_visited v x)) [
      | inl seen ↦
          rw (differs m x xs d.0 i, seen)
            (Perm.trans (Perm.cons x ih) (Perm.swap m x (filter (is_visited v) xs)))
      | inr new ↦ rw (differs m x xs d.0 i, new) ih
    ]

-- The walk so far holds just the messages of the visited ids, each once.
abbrev IsWalk : List ConversationMessage → Walk → Type 0
IsWalk ms w = Perm w.ordered (filter (is_visited w.visited) ms)

abbrev Ends : List ConversationMessage → Walk → Option Walk → Type 0
Ends ms w r =
    (w' : Walk) × (r ≡ some w') × IsWalk ms w' × (unvisited ms w'.visited ≤ unvisited ms w.visited)

each-Ends :
    (ms : List ConversationMessage) (fuel : ℕ) (body : ConversationMessage → Walk → Option Walk)
    → ((m : ConversationMessage) (w : Walk)
        → In m ms
        → unvisited ms w.visited < fuel
        → IsWalk ms w
        → Ends ms w (body m w))
    → (cs : List ConversationMessage) (w : Walk) → All (λ c. In c ms) cs
    → unvisited ms w.visited < fuel
    → IsWalk ms w
    → Ends ms w (for_each body cs w)
unfolding for_each
each-Ends ms fuel body one [] w a u k = (w, refl, k, omega arith)
each-Ends ms fuel body one (c ∷ cs) w a u k =
    let (w₁, e₁, k₁, u₁) = one c w a.0 u k in
    let (w₂, e₂, k₂, u₂) = each-Ends ms fuel body one cs w₁ a.1 (omega arith) k₁ in
    (w₂, rw (e₁, for_each) e₂, k₂, omega arith)

module _ (time : String → ℕ) (ms : List ConversationMessage) (d : HasDistinctIds ms) where
  visit-IsWalk :
      (m : ConversationMessage) (w : Walk)
      → In m ms
      → is_visited w.visited m ≡ false
      → IsWalk ms w
      → IsWalk ms (record { visited = m.uuid ∷ w.visited; ordered = w.ordered ++ (m ∷ []) })
  visit-IsWalk m w i h k =
      Perm.trans (perm_append_singleton m w.ordered)
        (Perm.trans (Perm.cons m k) (Perm.symm (visit-perm m w.visited ms d i h)))

  traverse-Ends :
      (fuel : ℕ) (m : ConversationMessage) (w : Walk)
      → In m ms
      → unvisited ms w.visited < fuel
      → IsWalk ms w
      → Ends ms w (traverse time ms fuel m w)
  unfolding traverse
  traverse-Ends zero m w i u k = absurd (omega arith)
  traverse-Ends (suc fuel) m w i u k = elim (Bool-cases (is_visited w.visited m)) [
    | inl seen ↦ rw (seen, traverse) (w, refl, k, omega arith)
    | inr new ↦
        let w' : Walk = record { visited = m.uuid ∷ w.visited; ordered = w.ordered ++ (m ∷ []) } in
        let less = unvisited-lt m w.visited ms i new in
        let (w₁, e₁, k₁, u₁) =
          each-Ends ms fuel (traverse time ms fuel) (traverse-Ends fuel)
            (sort time (filter (is_reply_to m.uuid) ms)) w'
            (sort-All time (λ c. In c ms) (filter (is_reply_to m.uuid) ms)
              (filter-All (λ c. In c ms) (is_reply_to m.uuid) ms (In-self ms)))
            (omega arith) (visit-IsWalk m w i new k) in
        (w₁, rw (new, traverse) e₁, k₁, omega arith)
  ]

-- Where no two messages have one uuid, the walk over replies ends within its fuel, and the chain
-- holds every message of the session exactly once, also where the replies form a cycle or have no
-- head.
pub build_message_chain-perm :
    (time : String → ℕ) (ms : List ConversationMessage)
    → HasDistinctIds ms
    → (chain : List ConversationMessage) × (build_message_chain time ms ≡ some chain)
      × Perm chain ms
unfolding build_message_chain
build_message_chain-perm time ms d = elim (Option-cases (find? is_head ms)) [
  | inl e ↦ (sort time ms, rw (e, build_message_chain), sort-perm time ms)
  | inr (head, e) ↦
      let start : Walk = record { visited = []; ordered = [] } in
      let (w, walked, k, u) =
        traverse-Ends time ms d (suc (length ms)) head start (find-In is_head head ms e)
          (omega (arith, length-filter-le (λ x. not (is_visited [] x)) ms)) (none_visited ms) in
      let rest = filter (λ m. not (contains m.uuid w.visited)) ms in
      (
        w.ordered ++ sort time rest,
        rw (e, build_message_chain, walked),
        Perm.trans (Perm.append k (sort-perm time rest)) (filter-perm (is_visited w.visited) ms),
      )
]
  where
    none_visited : (xs : List ConversationMessage) → Perm [] (filter (is_visited []) xs)
    none_visited [] = Perm.refl []
    none_visited (x ∷ xs) = none_visited xs
