-- ===== src/JsMap/Index.antt =====
-- Maps whose values carry their key, and the deletion of all entries that a test picks, for the
-- request trackers.
use private_agent_platform.Base.{
  ◌+◌, ◌≡◌, refl, String, Bool, false, not, List, [], ◌∷◌, Option, none, some, ◌==◌, if◌then◌else◌,
  eq_iff, arith, filter, find?, any, length,
}
use private_agent_platform.JsMap.{JsMap, get, set, delete, values, size}
use private_agent_platform.JsMap.Laws.{IsDistinct, delete_absent}

module _ {ℓ} {V : Type ℓ} where
  -- The value, if it passes the test.
  abbrev pub keep : (V → Bool) → Option V → Option V
  keep p none = none
  keep p (some v) = if p v then some v else none

  -- Each value stands under its own key.
  abbrev pub IsIndexed : (V → String) → JsMap V → Type 0
  IsIndexed id [] = Unit
  IsIndexed id ((k, v) ∷ m) = (id v ≡ k) × IsIndexed id m

  pub get-IsIndexed :
      (id : V → String) (k : String) (v : V) (m : JsMap V)
      → IsIndexed id m
      → get k m ≡ some v
      → id v ≡ k
  unfolding get
  get-IsIndexed id k v [] i h = cc
  get-IsIndexed id k v ((j, w) ∷ m) i h = ground (arith, eq_iff j k, get-IsIndexed id k v m i.1)

  pub set-IsIndexed :
      (id : V → String) (k : String) (v : V) (m : JsMap V)
      → id v ≡ k
      → IsIndexed id m
      → IsIndexed id (set k v m)
  unfolding set
  set-IsIndexed id k v [] h i = (h, tt)
  set-IsIndexed id k v ((j, w) ∷ m) h i = ground (arith, eq_iff j k, set-IsIndexed id k v m h i.1)

  find_absent :
      (id : V → String) (p : V → Bool) (k : String) (m : JsMap V)
      → IsIndexed id m
      → get k m ≡ none
      → find? (λ v. id v == k) (filter p (values m)) ≡ none
  unfolding get
  find_absent id p k [] i h = refl
  find_absent id p k ((j, w) ∷ m) i h =
      ground (arith, eq_iff j k, eq_iff (id w) k, find_absent id p k m i.1)

  -- To look for an id among the values that pass a test is to look it up and to test it.
  pub find-filter-values :
      (id : V → String) (p : V → Bool) (k : String) (m : JsMap V)
      → IsIndexed id m
      → IsDistinct m
      → find? (λ v. id v == k) (filter p (values m)) ≡ keep p (get k m)
  unfolding get
  find-filter-values id p k [] i d = refl
  find-filter-values id p k ((j, w) ∷ m) i d = ground (
    arith,
    eq_iff j k,
    eq_iff (id w) k,
    find_absent id p k m i.1,
    find-filter-values id p k m i.1 d.1,
  )

  -- `ids.forEach(id => map.delete(id))`
  unfoldable pub delete_all : List String → JsMap V → JsMap V
  delete_all [] m = m
  delete_all (k ∷ ks) m = delete_all ks (delete k m)

  -- The keys of the entries that pass the test, as a loop over the entries collects them.
  unfoldable pub matching : (V → Bool) → JsMap V → List String
  matching p [] = []
  matching p ((k, v) ∷ m) = let rest = matching p m in if p v then k ∷ rest else rest

  matching_absent :
      (p : V → Bool) (k : String) (m : JsMap V)
      → get k m ≡ none
      → any (λ j. k == j) (matching p m) ≡ false
  unfolding get matching
  matching_absent p k [] h = refl
  matching_absent p k ((j, w) ∷ m) h = ground (arith, eq_iff j k, eq_iff k j, matching_absent p k m)

  delete_all-cons :
      (ks : List String) (k : String) (v : V) (m : JsMap V)
      → any (λ j. k == j) ks ≡ false
      → delete_all ks ((k, v) ∷ m) ≡ (k, v) ∷ delete_all ks m
  unfolding delete_all delete
  delete_all-cons [] k v m h = refl
  delete_all-cons (j ∷ ks) k v m h = ground (arith, delete_all-cons ks k v (delete j m))

  pub delete_all-matching :
      (p : V → Bool) (m : JsMap V)
      → IsDistinct m
      → delete_all (matching p m) m ≡ filter (λ e. not (p e.1)) m
  unfolding matching delete_all delete
  delete_all-matching p [] d = refl
  delete_all-matching p ((k, v) ∷ m) d = ground (
    arith,
    eq_iff k k,
    delete_absent k m d.0,
    matching_absent p k m d.0,
    delete_all-cons (matching p m) k v m,
    delete_all-matching p m d.1,
  )

  pub get-filter :
      (p : V → Bool) (k : String) (m : JsMap V)
      → IsDistinct m
      → get k (filter (λ e. p e.1) m) ≡ keep p (get k m)
  unfolding get
  get-filter p k [] d = refl
  get-filter p k ((j, w) ∷ m) d = ground (arith, eq_iff j k, get-filter p k m d.1)

  pub filter-IsDistinct :
      (p : V → Bool) (m : JsMap V) → IsDistinct m → IsDistinct (filter (λ e. p e.1) m)
  filter-IsDistinct p [] d = tt
  filter-IsDistinct p ((k, v) ∷ m) d =
      ground (arith, get-filter p k m d.1, filter-IsDistinct p m d.1)

  pub filter-IsIndexed :
      (id : V → String) (p : V → Bool) (m : JsMap V)
      → IsIndexed id m
      → IsIndexed id (filter (λ e. p e.1) m)
  filter-IsIndexed id p [] i = tt
  filter-IsIndexed id p ((k, v) ∷ m) i = ground (arith, filter-IsIndexed id p m i.1)

  -- As many entries go as are counted.
  pub length-matching :
      (p : V → Bool) (m : JsMap V)
      → length (matching p m) + size (filter (λ e. not (p e.1)) m) ≡ size m
  unfolding matching
  length-matching p [] = omega arith
  length-matching p ((k, v) ∷ m) = ground (arith, length-matching p m)

  -- What was deleted is not found again.
  pub matching-filter : (p : V → Bool) (m : JsMap V) → matching p (filter (λ e. not (p e.1)) m) ≡ []
  unfolding matching
  matching-filter p [] = refl
  matching-filter p ((k, v) ∷ m) = ground (arith, matching-filter p m)
