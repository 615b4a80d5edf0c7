-- ===== src/JsonLines/Chunks.antt =====
-- Lemmas on json-lines-parser.ts fed with a text in chunks.
use mathlib.Core.List.{append_assoc, append-nil}
use private_agent_platform.Base.{
  Bool, any, arith, ℕ, false, List, [], ◌∷◌, ◌++◌, Option, ◌≡◌, refl, sym, ◌∙◌, ap, eqb, split,
  prepend, pop, Bool-cases, inl, inr,
}
use private_agent_platform.JsonLines.{
  Output, is_end, go_on, Buffer, newline, parse_line, parse_lines, run, reset,
}

pub split_cons : (d : ℕ) (s : List ℕ) → (l : List ℕ) × (ls : List (List ℕ)) × (split d s ≡ l ∷ ls)
unfolding split
split_cons d [] = ([], [], refl)
split_cons d (c ∷ s) =
    let (l, ls, e) = split_cons d s in
    elim (Bool-cases (eqb c d)) [
      | inl hit ↦ ([], split d s, rw hit)
      | inr miss ↦ (c ∷ l, ls, rw (miss, e))
    ]

-- Splitting a longer text goes on where the last line stopped.
split-append :
    (d : ℕ) (s t : List ℕ)
    → split d (s ++ t) ≡ (pop (split d s)).0 ++ split d ((pop (split d s)).1 ++ t)
unfolding split pop
split-append d [] t = refl
split-append d (c ∷ s) t =
    let (l, ls, e) = split_cons d s in
    let ih = split-append d s t in
    elim (Bool-cases (eqb c d)) [
      | inl hit ↦ rw (hit, e) (ap (◌∷◌ []) (rw e at ih))
      | inr miss ↦ rw (miss, e) (later l ls (rw e at ih) miss)
    ]
  where
    later :
        (l : List ℕ) (ls : List (List ℕ))
        → split d (s ++ t) ≡ (pop (l ∷ ls)).0 ++ split d ((pop (l ∷ ls)).1 ++ t)
        → eqb c d ≡ false
        → prepend c (split d (s ++ t))
          ≡ (pop ((c ∷ l) ∷ ls)).0 ++ split d ((pop ((c ∷ l) ∷ ls)).1 ++ t)
    later l [] h miss = rw (miss, h)
    later l (x ∷ ls) h miss = rw h

-- A text without the separator is one line.
abbrev pub IsLine : ℕ → List ℕ → Type 0
IsLine d s = split d s ≡ s ∷ []

split-last : (d : ℕ) (s : List ℕ) → IsLine d (pop (split d s)).1
unfolding split pop
split-last d [] = refl
split-last d (c ∷ s) =
    let (l, ls, e) = split_cons d s in
    let ih = split-last d s in
    elim (Bool-cases (eqb c d)) [
      | inl hit ↦ rw (hit, e) (rw e at ih)
      | inr miss ↦ rw (miss, e) (later l ls (rw e at ih) miss)
    ]
  where
    later :
        (l : List ℕ) (ls : List (List ℕ))
        → IsLine d (pop (l ∷ ls)).1
        → eqb c d ≡ false
        → IsLine d (pop ((c ∷ l) ∷ ls)).1
    later l [] h miss = rw (miss, h)
    later l (x ∷ ls) h miss = h

abbrev pub concat : List (List ℕ) → List ℕ
concat [] = []
concat (c ∷ cs) = c ++ concat cs

module _ {J : Type 0} where
  go_on-nil : (a : List (Output J)) → go_on a [] ≡ a
  unfolding go_on
  go_on-nil a = elim (Bool-cases (any is_end a)) [ inl e ↦ rw e | inr e ↦ rw e (append-nil a) ]

  any-append : (a b : List (Output J)) → any is_end a ≡ false → any is_end (a ++ b) ≡ any is_end b
  any-append [] b h = refl
  any-append (x ∷ a) b h = ground (arith, any-append a b)

  go_on_assoc : (a b c : List (Output J)) → go_on (go_on a b) c ≡ go_on a (go_on b c)
  unfolding go_on
  go_on_assoc a b c = elim (Bool-cases (any is_end a)) [
    | inl e ↦ rw (e, e)
    | inr e ↦
        rw (e, any-append a b e)
          (elim (Bool-cases (any is_end b)) [ inl f ↦ rw f | inr f ↦ rw f (append_assoc a b c) ])
  ]

module _ {J : Type 0} (parse : List ℕ → Option J) (is_null : J → Bool) where
  parse_lines-append :
      (xs ys : List (List ℕ))
      → parse_lines parse is_null (xs ++ ys)
        ≡ go_on (parse_lines parse is_null xs) (parse_lines parse is_null ys)
  unfolding parse_lines
  parse_lines-append [] ys = unfold go_on in refl
  parse_lines-append (x ∷ xs) ys = rw (parse_lines-append xs ys) (
      sym (
        go_on_assoc (parse_line parse is_null x) (parse_lines parse is_null xs)
          (parse_lines parse is_null ys)))

  run_from :
      (chunks : List (List ℕ)) (buffer : Buffer)
      → IsLine newline buffer
      → run parse is_null chunks buffer
        ≡ parse_lines parse is_null (split newline (buffer ++ concat chunks))
  unfolding run
  run_from [] buffer line =
      rw (append-nil buffer, line) (sym (go_on-nil (parse_line parse is_null buffer)))
  run_from (c ∷ cs) buffer line =
      let whole = buffer ++ c in
      let last = (pop (split newline whole)).1 in
      let lines = (pop (split newline whole)).0 in
      ap (go_on (parse_lines parse is_null lines)) (run_from cs last (split-last newline whole))
      ∙ sym (parse_lines-append lines (split newline (last ++ concat cs)))
      ∙ ap (parse_lines parse is_null) (
          sym (split-append newline whole (concat cs))
          ∙ ap (split newline) (append_assoc buffer c (concat cs)))

  -- A fresh or reset parser gives, for every way to cut a text into chunks, what the lines of the
  -- whole text give in order, up to the first line `null`, with which the stream ends: each line that
  -- is not blank is pushed as parsed or reported invalid, the last one, without a newline, included.
  pub run-lines :
      (chunks : List (List ℕ)) (old : Buffer)
      → run parse is_null chunks (reset old)
        ≡ parse_lines parse is_null (split newline (concat chunks))
  unfolding reset
  run-lines chunks old = run_from chunks [] (unfold split in refl)
