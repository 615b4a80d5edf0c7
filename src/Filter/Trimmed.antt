-- ===== src/Filter/Trimmed.antt =====
-- What trimming a text gives, for message-filter.ts: the text without the white space at its ends.
use mathlib.Core.List.{append-nil, reverse-cons, reverse-append, reverse-reverse}
use private_agent_platform.Base.{
  ℕ, Bool, true, false, not, ◌&&◌, List, [], ◌∷◌, ◌++◌, reverse, all, is_space, trim_start, trim,
  ◌≡◌, refl, sym, ◌∙◌, ap, arith, Bool-cases, inl, inr, subst,
}

-- The text does not begin with white space.
abbrev begins_solid : List ℕ → Bool
begins_solid [] = true
begins_solid (c ∷ s) = not (is_space c)

-- The second text is the first without white space at both ends.
pub record IsTrimmed (s t : List ℕ) : Type 0 where
  pub before : List ℕ
  pub after : List ℕ
  pub whole : s ≡ before ++ (t ++ after)
  pub blank_before : all is_space before ≡ true
  pub blank_after : all is_space after ≡ true
  pub begins : begins_solid t ≡ true
  pub ends : begins_solid (reverse t) ≡ true

trim_start-split : (s : List ℕ) → (w : List ℕ) × (s ≡ w ++ trim_start s) × (all is_space w ≡ true)
unfolding trim_start
trim_start-split [] = ([], refl, refl)
trim_start-split (c ∷ s) = elim (Bool-cases (is_space c)) [
  | inl e ↦ let (w, eq, blank) = trim_start-split s in (c ∷ w, rw e (ap (◌∷◌ c) eq), rw (e, blank))
  | inr e ↦ ([], rw e, refl)
]

trim_start-solid : (s : List ℕ) → begins_solid (trim_start s) ≡ true
unfolding trim_start
trim_start-solid [] = refl
trim_start-solid (c ∷ s) = elim (Bool-cases (is_space c)) [
  | inl e ↦ rw e (trim_start-solid s)
  | inr e ↦ rw (e, e)
]

and_both : (a b : Bool) → a && b ≡ true → (a ≡ true) × (b ≡ true)
and_both true b h = (refl, h)
and_both false b h = cc

trim_start-blank : (w x : List ℕ) → all is_space w ≡ true → trim_start (w ++ x) ≡ trim_start x
unfolding trim_start
trim_start-blank [] x h = refl
trim_start-blank (c ∷ w) x h =
    let (space, rest) = and_both (is_space c) (all is_space w) h in
    rw space (trim_start-blank w x rest)

trim_start-solid_id : (t : List ℕ) → begins_solid t ≡ true → trim_start t ≡ t
unfolding trim_start
trim_start-solid_id [] h = refl
trim_start-solid_id (c ∷ t) h = ground arith

solid-append : (a b : List ℕ) → begins_solid (a ++ b) ≡ true → begins_solid a ≡ true
solid-append [] b h = refl
solid-append (c ∷ a) b h = h

all-append : (p : ℕ → Bool) (a b : List ℕ) → all p (a ++ b) ≡ all p a && all p b
all-append p [] b = refl
all-append p (x ∷ a) b = ground (arith, all-append p a b)

all-reverse : (p : ℕ → Bool) (a : List ℕ) → all p a ≡ true → all p (reverse a) ≡ true
all-reverse p [] h = refl
all-reverse p (x ∷ a) h =
    rw (reverse-cons x a, all-append p (reverse a) (x ∷ [])) (ground (arith, all-reverse p a))

pub trim-IsTrimmed : (s : List ℕ) → IsTrimmed s (trim s)
unfolding trim
trim-IsTrimmed s =
    let (w, front, blank) = trim_start-split s in
    let (v, back, blank') = trim_start-split (reverse (trim_start s)) in
    let kept = trim_start (reverse (trim_start s)) in
    let inner : trim_start s ≡ reverse kept ++ reverse v =
      sym (reverse-reverse (trim_start s)) ∙ ap reverse back ∙ reverse-append v kept in
    record {
      before = w;
      after = reverse v;
      whole = front ∙ ap (◌++◌ w) inner;
      blank_before = blank;
      blank_after = all-reverse is_space v blank';
      begins =
          solid-append (reverse kept) (reverse v)
            (subst (λ x. begins_solid x ≡ true) inner (trim_start-solid s));
      ends =
          subst (λ x. begins_solid x ≡ true) (sym (reverse-reverse kept))
            (trim_start-solid (reverse (trim_start s)));
    }

-- What is left of a text between white space.
middle :
    (t v : List ℕ)
    → all is_space v ≡ true
    → begins_solid t ≡ true
    → begins_solid (reverse t) ≡ true
    → reverse (trim_start (reverse (trim_start (t ++ v)))) ≡ t
middle [] v blank h h' =
    let none_left : trim_start v ≡ [] =
      ap trim_start (sym (append-nil v))
      ∙ trim_start-blank v [] blank
      ∙ trim_start-solid_id [] refl in
    rw none_left (ap reverse (trim_start-solid_id [] refl))
middle (c ∷ t) v blank h h' =
    rw (trim_start-solid_id (c ∷ t ++ v) h, reverse-append (c ∷ t) v)
      (rw
        (
          trim_start-blank (reverse v) (reverse (c ∷ t)) (all-reverse is_space v blank),
          trim_start-solid_id (reverse (c ∷ t)) h',
        )
        (reverse-reverse (c ∷ t)))

pub IsTrimmed-trim : (s t : List ℕ) → IsTrimmed s t → trim s ≡ t
unfolding trim
IsTrimmed-trim s t i =
    ap trim i.whole
    ∙ ap (λ x. reverse (trim_start (reverse x)))
        (trim_start-blank i.before (t ++ i.after) i.blank_before)
    ∙ middle t i.after i.blank_after i.begins i.ends
