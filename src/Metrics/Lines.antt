-- ===== src/Metrics/Lines.antt =====
-- Lemmas on the line count of ToolMetricsService.ts.
use private_agent_platform.Base.{
  ℕ, suc, ◌+◌, ◌-◌, String, Bool, true, false, List, [], ◌∷◌, ◌==◌, ◌≡◌, refl, ◌∙◌, ap, eqb, eq_iff,
  arith, length, codes, split, prepend, pop, Bool-cases, inl, inr,
}
use private_agent_platform.JsonLines.Chunks.{split_cons}
use private_agent_platform.Metrics.{count_lines, less_empty}

-- The characters that begin a line: the first, and each one behind a newline.
abbrev line_starts : Bool → List ℕ → ℕ
line_starts b [] = 0
line_starts true (c ∷ s) = suc (line_starts (eqb c 10) s)
line_starts false (c ∷ s) = line_starts (eqb c 10) s

-- 1 if the last of the lines is empty; `behind` asks so only of lines behind the first.
abbrev ends_empty : List (List ℕ) → ℕ
ends_empty [] = 0
ends_empty ([] ∷ []) = 1
ends_empty ((c ∷ l) ∷ []) = 0
ends_empty (l ∷ l' ∷ ls) = ends_empty (l' ∷ ls)

abbrev behind : List (List ℕ) → ℕ
behind [] = 0
behind (l ∷ ls) = ends_empty ls

ends_empty-prepend :
    (c : ℕ) (l : List ℕ) (ls : List (List ℕ)) → ends_empty ((c ∷ l) ∷ ls) ≡ ends_empty ls
ends_empty-prepend c l [] = refl
ends_empty-prepend c l (x ∷ ls) = refl

starts_split :
    (s : List ℕ)
    → (line_starts true s + ends_empty (split 10 s) ≡ length (split 10 s))
      × (suc (line_starts false s + behind (split 10 s)) ≡ length (split 10 s))
unfolding split prepend
starts_split [] = (omega arith, omega arith)
starts_split (c ∷ s) =
    let (l, ls, e) = split_cons 10 s in
    let ih = starts_split s in
    elim (Bool-cases (eqb c 10)) [
      | inl hit ↦ rw (hit, e) (cons_case l ls (rw e at ih))
      | inr miss ↦ rw (miss, e, ends_empty-prepend c l ls) (tail_case l ls (rw e at ih))
    ]
  where
    cons_case :
        (l : List ℕ) (ls : List (List ℕ))
        → (line_starts true s + ends_empty (l ∷ ls) ≡ suc (length ls))
          × (suc (line_starts false s + ends_empty ls) ≡ suc (length ls))
        → (suc (line_starts true s) + ends_empty (l ∷ ls) ≡ suc (suc (length ls)))
          × (suc (line_starts true s + ends_empty (l ∷ ls)) ≡ suc (suc (length ls)))
    cons_case l ls h = (omega arith, omega arith)

    tail_case :
        (l : List ℕ) (ls : List (List ℕ))
        → (line_starts true s + ends_empty (l ∷ ls) ≡ suc (length ls))
          × (suc (line_starts false s + ends_empty ls) ≡ suc (length ls))
        → (suc (line_starts false s) + ends_empty ls ≡ suc (length ls))
          × (suc (line_starts false s + ends_empty ls) ≡ suc (length ls))
    tail_case l ls h = (omega arith, omega arith)

last_line :
    (n : ℕ) (l : List ℕ) (ls : List (List ℕ))
    → less_empty (pop (l ∷ ls)).1 n ≡ n - ends_empty (l ∷ ls)
unfolding pop
last_line n [] [] = refl
last_line n (c ∷ l) [] = omega arith
last_line n l (l' ∷ ls) = last_line n l' ls

count_split :
    (s : List ℕ) → less_empty (pop (split 10 s)).1 (length (split 10 s)) ≡ line_starts true s
count_split s =
    let (l, ls, e) = split_cons 10 s in
    let counted = (starts_split s).0 in
    ap (λ k. less_empty (pop k).1 (length k)) e
    ∙ last_line (length (l ∷ ls)) l ls
    ∙ omega (arith, (rw e at counted))

-- A text has as many lines as characters that begin one: a trailing newline begins no further line,
-- and the empty text has none.
count_lines-starts : (s : String) → count_lines s ≡ line_starts true (codes s)
unfolding count_lines
count_lines-starts s = elim (Bool-cases (s == "")) [
  | inl e ↦ let empty = (eq_iff s "").0 e in rw (e, empty)
  | inr e ↦ rw e (count_split (codes s))
]
