-- ===== src/SessionInfo/Counts.antt =====
-- Lemmas on loops of statements (web/cui/src/services/session-info-service.ts).
use private_agent_platform.Base.{
  ℕ, ◌+◌, String, Bool, not, ◌&&◌, List, [], ◌∷◌, Option, ◌==◌, if◌then◌else◌, is_some, filter,
  length, any, ◌≡◌, refl, ◌∙◌, arith, eq_iff, Bool-cases, inl, inr,
}
use private_agent_platform.JsMap
use private_agent_platform.JsMap.{JsMap}
use private_agent_platform.JsMap.Index.{keep}
use private_agent_platform.JsMap.Laws.{IsDistinct}
use private_agent_platform.SessionInfo.Table.{Row}
use private_agent_platform.SessionInfo.Batches.{run_each}

-- How many different ids of the list pass the test.
abbrev pub count_ids : (String → Bool) → List String → ℕ
count_ids p [] = 0
count_ids p (id ∷ ids) = (if p id then 1 else 0) + count_ids (λ j. p j && not (id == j)) ids

count_ids-congr :
    (p q : String → Bool) (ids : List String)
    → ((j : String) → p j ≡ q j)
    → count_ids p ids ≡ count_ids q ids
count_ids-congr p q [] h = refl
count_ids-congr p q (id ∷ ids) h = rw (
  h id,
  count_ids-congr (λ j. p j && not (id == j)) (λ j. q j && not (id == j)) ids (λ j. rw (h j)),
)

-- A key occurs in at most one row that a condition on the key picks.
pub length-filter-key :
    (k : String) (q : Row → Bool) (m : JsMap Row)
    → IsDistinct m
    → length (filter (λ e. e.0 == k && q e.1) m)
      ≡ (if is_some (keep q (JsMap.get k m)) then 1 else 0)
unfolding JsMap.get
length-filter-key k q [] d = refl
length-filter-key k q ((j, r) ∷ m) d = ground (arith, eq_iff j k, length-filter-key k q m d.1)

pub length-filter-id :
    (k : String) (m : JsMap Row)
    → IsDistinct m
    → length (filter (λ e. e.0 == k) m) ≡ (if JsMap.has k m then 1 else 0)
unfolding JsMap.get
length-filter-id k [] d = refl
length-filter-id k ((j, r) ∷ m) d = ground (arith, eq_iff j k, length-filter-id k m d.1)

-- A loop of statements each of which changes a row for an id that passes a test, and then the id no
-- longer passes.
module _ {D : Type 0} (statement : String → D → D × ℕ) (p : D → String → Bool)
    (counts : (id : String) (d : D) → (statement id d).1 ≡ (if p d id then 1 else 0))
    (spends : (id : String) (d : D) (j : String)
      → p (statement id d).0 j ≡ (p d j && not (id == j))) where
  pub run_each-count :
      (ids : List String) (d : D) → (run_each statement ids d).1 ≡ count_ids (p d) ids
  unfolding run_each
  run_each-count [] d = refl
  run_each-count (id ∷ ids) d =
      let rest =
        run_each-count ids (statement id d).0
        ∙ count_ids-congr (p (statement id d).0) (λ j. p d j && not (id == j)) ids (spends id d) in
      rw (rest, counts id d) (ground arith)

-- A loop of statements each of which changes the row of its id as `f` says, and once only.
module _ {D : Type 0} (statement : String → D → D × ℕ) (rows : D → JsMap Row)
    (f : Option Row → Option Row) (once : (o : Option Row) → f (f o) ≡ f o)
    (acts : (id : String) (d : D) (j : String)
      → JsMap.get j (rows (statement id d).0)
        ≡ (if id == j then f (JsMap.get j (rows d)) else JsMap.get j (rows d))) where
  pub run_each-rows :
      (ids : List String) (d : D) (j : String)
      → JsMap.get j (rows (run_each statement ids d).0)
        ≡ (if any (λ id. id == j) ids then f (JsMap.get j (rows d)) else JsMap.get j (rows d))
  unfolding run_each
  run_each-rows [] d j = refl
  run_each-rows (id ∷ ids) d j =
      run_each-rows ids (statement id d).0 j
      ∙ rw (acts id d j) (elim (Bool-cases (id == j)) [
        | inl same ↦ rw same (ground (arith, once (JsMap.get j (rows d))))
        | inr other ↦ rw other
      ])
