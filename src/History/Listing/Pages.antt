-- ===== src/History/Listing/Pages.antt =====
-- Lemmas on the pages of claude-history-reader.ts.
use private_agent_platform.Base.{
  ℕ, zero, suc, ◌+◌, ◌*◌, ◌≤◌, List, [], ◌∷◌, ◌++◌, none, some, ◌≡◌, refl, sym, ap, arith, length,
  take, drop,
}
use private_agent_platform.Types.{ConversationSummary}
use private_agent_platform.History.Listing.{Query, or_number, apply_pagination}

-- The query for a page.
abbrev page : ℕ → ℕ → Query
page limit offset = record {
  project_path = none;
  limit = some limit;
  offset = some offset;
  sort_by = none;
  order = none;
  has_continuation = none;
  archived = none;
  pinned = none;
  session_type = none;
}

-- The answers for `n` pages one after another, from an offset on.
abbrev pub pages : ℕ → ℕ → ℕ → List ConversationSummary → List ConversationSummary
pages limit offset zero cs = []
pages limit offset (suc n) cs =
    apply_pagination (some (page limit offset)) cs ++ pages limit (offset + limit) n cs

or_number-zero : (n : ℕ) → or_number (some n) 0 ≡ n
or_number-zero zero = refl
or_number-zero (suc n) = refl

take_drop_lem {ℓ} : {A : Type ℓ} (l : ℕ) (xs : List A) → take l xs ++ drop l xs ≡ xs
take_drop_lem zero xs = refl
take_drop_lem (suc l) [] = refl
take_drop_lem (suc l) (x ∷ xs) = ap (◌∷◌ x) (take_drop_lem l xs)

take-drop {ℓ} :
    {A : Type ℓ} (l o : ℕ) (xs : List A) → take l (drop o xs) ++ drop (o + l) xs ≡ drop o xs
take-drop l zero xs = let e : zero + l ≡ l = omega arith in rw e (take_drop_lem l xs)
take-drop zero (suc o) [] = let e : suc o + zero ≡ suc o = omega arith in rw e
take-drop (suc l) (suc o) [] = let e : suc o + suc l ≡ suc (o + suc l) = omega arith in rw e
take-drop l (suc o) (x ∷ xs) =
    let e : suc o + l ≡ suc (o + l) = omega arith in rw e (take-drop l o xs)

drop_all {ℓ} : {A : Type ℓ} (o : ℕ) (xs : List A) → length xs ≤ o → drop o xs ≡ []
drop_all zero [] h = refl
drop_all (suc o) [] h = refl
drop_all zero (x ∷ xs) h = absurd (omega arith)
drop_all (suc o) (x ∷ xs) h = drop_all o xs (omega arith)

pages_from :
    (k n offset : ℕ) (cs : List ConversationSummary)
    → length cs ≤ offset + n * suc k
    → pages (suc k) offset n cs ≡ drop offset cs
unfolding apply_pagination
pages_from k zero offset cs h = sym (drop_all offset cs (omega arith))
pages_from k (suc n) offset cs h =
    rw (or_number-zero offset, pages_from k n (offset + suc k) cs (omega arith))
      (take-drop (suc k) offset cs)

-- Pages of any positive size that together are long enough give every conversation once and in
-- order.
pub apply_pagination-pages :
    (k n : ℕ) (cs : List ConversationSummary) → length cs ≤ n * suc k → pages (suc k) 0 n cs ≡ cs
apply_pagination-pages k n cs h = pages_from k n 0 cs (omega arith)
