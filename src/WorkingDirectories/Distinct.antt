-- ===== src/WorkingDirectories/Distinct.antt =====
-- Short names of different directories differ (working-directories-service.ts).
use private_agent_platform.Base.{
  ℕ, ◌+◌, ◌-◌, ◌≤◌, String, Bool, true, false, not, ◌||◌, List, [], ◌∷◌, ◌++◌, inl, inr,
  if◌then◌else◌, length, drop, filter, any, all, All, length-drop, codes, split, prepend, ◌≡◌, ◌≢◌,
  refl, sym, ◌∙◌, ap, arith, Bool-cases, eqb, text_eq, text_eq_iff, ◌==◌, eq_iff, subst,
}
use private_agent_platform.JsonLines.{is_empty}
use private_agent_platform.WorkingDirectories.{segments, join, suffix, is_unique, shortname}
use private_agent_platform.WorkingDirectories.Shortest.{drop-All, shortname-Finds}

-- How often a text has the slash.
abbrev count : List ℕ → ℕ
count [] = 0
count (c ∷ s) = (if eqb c 47 then 1 else 0) + count s

abbrev IsPlain : List ℕ → Type 0
IsPlain s = count s ≡ 0

count-append : (s t : List ℕ) → count (s ++ t) ≡ count s + count t
count-append [] t = omega arith
count-append (c ∷ s) t = omega (arith, count-append s t)

prepend-IsPlain :
    (c : ℕ) (ls : List (List ℕ)) → eqb c 47 ≡ false → All IsPlain ls → All IsPlain (prepend c ls)
unfolding prepend
prepend-IsPlain c [] h a = (rw h refl, tt)
prepend-IsPlain c (l ∷ ls) h a = (rw h (omega (arith, a.0)), a.1)

split-IsPlain : (s : List ℕ) → All IsPlain (split 47 s)
unfolding split
split-IsPlain [] = (refl, tt)
split-IsPlain (c ∷ s) = elim (Bool-cases (eqb c 47)) [
  | inl e ↦ rw e (refl, split-IsPlain s)
  | inr e ↦ rw e (prepend-IsPlain c (split 47 s) e (split-IsPlain s))
]

filter-IsPlain :
    (p : List ℕ → Bool) (ss : List (List ℕ)) → All IsPlain ss → All IsPlain (filter p ss)
filter-IsPlain p [] a = tt
filter-IsPlain p (s ∷ ss) a = elim (Bool-cases (p s)) [
  | inl e ↦ rw e (a.0, filter-IsPlain p ss a.1)
  | inr e ↦ rw e (filter-IsPlain p ss a.1)
]

-- A joined list of plain segments has a slash less than segments.
count-join : (ss : List (List ℕ)) → All IsPlain ss → 1 ≤ length ss → count (join ss) + 1 ≡ length ss
unfolding join
count-join [] a h = omega (arith, h)
count-join (s ∷ []) a h = omega (arith, a.0)
count-join (s ∷ t ∷ ss) a h =
    omega (arith, count-append s (47 ∷ join (t ∷ ss)), count-join (t ∷ ss) a.1 (omega arith), a.0)

count-suffix :
    (k : ℕ) (path : String)
    → 1 ≤ k
    → k ≤ length (segments path)
    → count (suffix k (segments path)) + 1 ≡ k
unfolding suffix segments
count-suffix k path le bound =
    let segs = segments path in
    let n = length-drop (length segs - k) segs in
    count-join (drop (length segs - k) segs)
      (drop-All IsPlain (length segs - k) segs
        (filter-IsPlain (λ s. not (is_empty s)) _ (split-IsPlain (codes path))))
      (omega (arith, n, le, bound))
    ∙ omega (arith, n, le, bound)

all-any :
    (f : String → Bool) (xs : List String) (q : String)
    → all f xs ≡ true
    → any (λ x. x == q) xs ≡ true
    → f q ≡ true
all-any f [] q a h = cc
all-any f (x ∷ xs) q a h = elim (Bool-cases (x == q)) [
  | inl e ↦ subst (λ y. f y ≡ true) ((eq_iff x q).0 e) (ground (arith, a))
  | inr e ↦ all-any f xs q (ground (arith, a)) (ground (arith, h, e))
]

-- Some suffix of the path is no other path's.
abbrev pub HasUnique : List String → String → Type 0
HasUnique paths path =
    (k : ℕ) × (1 ≤ k) × (k ≤ length (segments path)) × (is_unique paths path k ≡ true)

unique-suffix :
    (paths : List String) (path : String)
    → HasUnique paths path
    → (k : ℕ) × (1 ≤ k)
      × (k ≤ length (segments path))
      × (is_unique paths path k ≡ true)
      × (shortname paths path ≡ suffix k (segments path))
unique-suffix paths path (k, le, bound, unique) = elim (shortname-Finds paths path) [
  | inl (i, (low, high, first, shared), found) ↦ (i, low, omega (arith, high), first, found)
  | inr (shared, found) ↦ cc (unique, shared k le (omega (arith, bound)))
]

unique-differs :
    (paths : List String) (p q : String) (k : ℕ)
    → any (λ x. x == q) paths ≡ true
    → (q == p) ≡ false
    → is_unique paths p k ≡ true
    → suffix k (segments q) ≢ suffix k (segments p)
unfolding is_unique
unique-differs paths p q k listed other unique same =
    let at =
      all-any (λ x. x == p || not (text_eq (suffix k (segments x)) (suffix k (segments p)))) paths q
        unique listed in
    ground (arith, other, at, (text_eq_iff (suffix k (segments q)) (suffix k (segments p))).1 same)

-- Two different directories of the list, each of which has a suffix of its own, get different short
-- names.
pub shortname-distinct :
    (paths : List String) (p q : String)
    → any (λ x. x == q) paths ≡ true
    → (q == p) ≡ false
    → HasUnique paths p
    → HasUnique paths q
    → shortname paths q ≢ shortname paths p
shortname-distinct paths p q listed other hp hq same =
    let (k, le, bound, unique, named) = unique-suffix paths p hp in
    let (m, le', bound', unique', named') = unique-suffix paths q hq in
    let texts = sym named' ∙ same ∙ named in
    let lengths =
      sym (count-suffix m q le' bound') ∙ ap (λ s. count s + 1) texts ∙ count-suffix k p le bound in
    unique-differs paths p q k listed other unique
      (subst (λ i. suffix i (segments q) ≡ suffix k (segments p)) lengths texts)
