-- ===== src/JsonLines/RoundTrip.antt =====
-- Lemmas on json-lines-parser.ts fed with records written one to a line.
use private_agent_platform.Base.{
  Bool, any, ℕ, true, false, List, [], ◌∷◌, ◌++◌, map, Option, some, ◌≡◌, refl, sym, ◌∙◌, ap, eqb,
  arith, split, prepend, Bool-cases, inl, inr, trim,
}
use private_agent_platform.JsonLines.{
  pushed, go_on, push, Buffer, newline, is_empty, parse_line, parse_lines, run, reset,
}
use private_agent_platform.JsonLines.Chunks.{IsLine, split_cons, concat, run-lines}

IsLine-tail : (d c : ℕ) (l : List ℕ) → IsLine d (c ∷ l) → (eqb c d ≡ false) × IsLine d l
unfolding split prepend
IsLine-tail d c l h =
    let (x, xs, e) = split_cons d l in
    elim (Bool-cases (eqb c d)) [
      | inl hit ↦ absurd (unfold split in (cc (the_first hit)))
      | inr miss ↦ (miss, rw e (cons-injective x xs (sym (ap (prepend c) e) ∙ step miss)))
    ]
  where
    the_first : eqb c d ≡ true → ◌≡◌ {A = List (List ℕ)} ([] ∷ split d l) ((c ∷ l) ∷ [])
    the_first hit = rw hit at h

    step : eqb c d ≡ false → prepend c (split d l) ≡ (c ∷ l) ∷ []
    step miss = rw miss at h

    cons-injective :
        (x : List ℕ) (xs : List (List ℕ)) → prepend c (x ∷ xs) ≡ (c ∷ l) ∷ [] → x ∷ xs ≡ l ∷ []
    cons-injective x xs h' = ground arith

split-line : (d : ℕ) (l s : List ℕ) → IsLine d l → split d (l ++ (d ∷ s)) ≡ l ∷ split d s
unfolding split prepend
split-line d [] s h = ground arith
split-line d (c ∷ l) s h = let (miss, h') = IsLine-tail d c l h in rw (miss, split-line d l s h')

-- What the printer of the records promises: no newline in a record, no blank record, and that the
-- parser reads it back.
pub record IsPrinter {J : Type 0} (print : J → List ℕ) (parse : List ℕ → Option J) : Type 0 where
  pub one_line : (j : J) → IsLine newline (print j)
  pub not_blank : (j : J) → is_empty (trim (print j)) ≡ false
  pub reads_back : (j : J) → parse (print j) ≡ some j

any-cons :
    {J : Type 0} (p : J → Bool) (j : J) (js : List J)
    → any p (j ∷ js) ≡ false
    → (p j ≡ false) × (any p js ≡ false)
any-cons p j js h = ground arith

abbrev write_lines : {J : Type 0} → (J → List ℕ) → List J → List ℕ
write_lines print [] = []
write_lines print (j ∷ js) = print j ++ (newline ∷ write_lines print js)

module _ {J : Type 0} (print : J → List ℕ) (parse : List ℕ → Option J) (is_null : J → Bool)
    (law : IsPrinter print parse) where
  read : (j : J) → is_null j ≡ false → parse_line parse is_null (print j) ≡ pushed j ∷ []
  unfolding parse_line push
  read j h = ground (arith, law.not_blank j, law.reads_back j)

  parse_written :
      (js : List J)
      → any is_null js ≡ false
      → parse_lines parse is_null (split newline (write_lines print js)) ≡ map pushed js
  unfolding split parse_lines go_on
  parse_written [] h = unfold parse_line trim in refl
  parse_written (j ∷ js) h =
      let (first, rest) = any-cons is_null j js h in
      rw (
        split-line newline (print j) (write_lines print js) (law.one_line j),
        read j first,
        parse_written js rest,
      )

  -- Records none of which is null, written one to a line and cut into chunks anywhere, are pushed in
  -- their order, with no error and nothing besides.
  pub run-write_lines :
      (js : List J) (chunks : List (List ℕ)) (old : Buffer)
      → any is_null js ≡ false
      → concat chunks ≡ write_lines print js
      → run parse is_null chunks (reset old) ≡ map pushed js
  run-write_lines js chunks old h e = run-lines parse is_null chunks old ∙ rw e (parse_written js h)
