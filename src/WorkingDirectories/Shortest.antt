-- ===== src/WorkingDirectories/Shortest.antt =====
-- Which suffix the loop of working-directories-service.ts finds.
use private_agent_platform.Base.{
  ℕ, zero, suc, ◌+◌, ◌-◌, ◌≤◌, ◌<◌, String, true, false, not, List, [], ◌∷◌, ◌⊎◌, inl, inr, length,
  drop, filter, All, length-drop, codes, split, ◌≡◌, refl, arith, Bool-cases, eqb, eqb_iff, subst,
}
use private_agent_platform.JsonLines.{is_empty}
use private_agent_platform.WorkingDirectories.{
  segments, join, suffix, is_unique, find_suffix, shortname,
}

-- The lengths from `n` on and below `end` whose suffix another path shares.
abbrev AllShared : List String → String → ℕ → ℕ → Type 0
AllShared paths path n end = (i : ℕ) → n ≤ i → i < end → is_unique paths path i ≡ false

-- The first length from `n` on whose suffix no other path has, below `end`.
abbrev IsFirst : List String → String → ℕ → ℕ → ℕ → Type 0
IsFirst paths path n end k =
    (n ≤ k) × (k < end) × (is_unique paths path k ≡ true) × AllShared paths path n k

abbrev pub Finds : List String → String → ℕ → ℕ → List ℕ → List ℕ → Type 0
Finds paths path n end default found =
    ((k : ℕ) × IsFirst paths path n end k × (found ≡ suffix k (segments path)))
    ⊎ (AllShared paths path n end × (found ≡ default))

shared_next :
    (paths : List String) (path : String) (n end : ℕ)
    → is_unique paths path n ≡ false
    → AllShared paths path (n + 1) end
    → AllShared paths path n end
shared_next paths path n end h a i le lt = elim (Bool-cases (eqb n i)) [
  | inl e ↦ subst (λ x. is_unique paths path x ≡ false) ((eqb_iff n i).0 e) h
  | inr e ↦ a i (ground (arith, le, e)) lt
]

find_suffix-Finds :
    (paths : List String) (path : String) (fuel n : ℕ)
    → Finds paths path n (n + fuel) [] (find_suffix paths path fuel n)
unfolding find_suffix
find_suffix-Finds paths path zero n = inr ((λ i le lt. ground (arith, le, lt)), refl)
find_suffix-Finds paths path (suc fuel) n = elim (Bool-cases (is_unique paths path n)) [
  | inl e ↦ rw e (inl (n, (omega arith, omega arith, e, λ i le lt. ground (arith, le, lt)), refl))
  | inr e ↦ rw e (elim (find_suffix-Finds paths path fuel (n + 1)) [
    | inl (k, (le, lt, unique, shared), found) ↦ inl (
      k,
      (omega (arith, le), omega (arith, lt), unique, shared_next paths path n k e shared),
      found,
    )
    | inr (shared, found) ↦ inr (
      λ i le lt. shared_next paths path n (n + 1 + fuel) e shared i le (omega (arith, lt)),
      found,
    )
  ])
]

-- Every segment of a list has text.
abbrev IsFull : List (List ℕ) → Type 0
IsFull = All (λ s. is_empty s ≡ false)

filter-IsFull : (ss : List (List ℕ)) → IsFull (filter (λ s. not (is_empty s)) ss)
filter-IsFull [] = tt
filter-IsFull ([] ∷ ss) = filter-IsFull ss
filter-IsFull ((c ∷ s) ∷ ss) = (refl, filter-IsFull ss)

pub drop-All : (P : List ℕ → Type 0) (n : ℕ) (ss : List (List ℕ)) → All P ss → All P (drop n ss)
drop-All P zero ss a = a
drop-All P (suc n) [] a = tt
drop-All P (suc n) (s ∷ ss) a = drop-All P n ss a.1

join-full : (ss : List (List ℕ)) → IsFull ss → 1 ≤ length ss → is_empty (join ss) ≡ false
unfolding join
join-full [] a h = ground (arith, h)
join-full (s ∷ []) a h = a.0
join-full ([] ∷ t ∷ ss) a h = cc
join-full ((c ∷ s) ∷ t ∷ ss) a h = refl

suffix-full :
    (k : ℕ) (path : String)
    → 1 ≤ k
    → k ≤ length (segments path)
    → is_empty (suffix k (segments path)) ≡ false
unfolding suffix segments
suffix-full k path le bound =
    let segs = segments path in
    join-full (drop (length segs - k) segs)
      (drop-All (λ s. is_empty s ≡ false) (length segs - k) segs
        (filter-IsFull (split 47 (codes path))))
      (rw (length-drop (length segs - k) segs) (omega (arith, le, bound)))

-- The short name of a path is its shortest suffix that no other path has; where other paths share
-- every suffix, it is the path.
pub shortname-Finds :
    (paths : List String) (path : String)
    → Finds paths path 1 (1 + length (segments path)) (codes path) (shortname paths path)
unfolding shortname
shortname-Finds paths path = elim (find_suffix-Finds paths path (length (segments path)) 1) [
  | inr (shared, found) ↦ inr (shared, rw found refl)
  | inl (k, (le, lt, unique, shared), found) ↦
      inl (k, (le, lt, unique, shared), rw (found, suffix-full k path le (omega (arith, lt))) refl)
]
