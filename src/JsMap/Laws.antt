-- ===== src/JsMap/Laws.antt =====
-- Reading after a write, and the distinctness of keys, for JsMap.antt.
use private_agent_platform.Base.{
  suc, ◌≡◌, refl, String, [], ◌∷◌, none, some, ◌==◌, if◌then◌else◌, eq_iff, eq_refl, arith, All,
  Bool-cases, inl, inr,
}
use private_agent_platform.JsMap.{JsMap, get, has, set, delete, size, keys}

module _ {ℓ} {V : Type ℓ} where
  pub get-set :
      (k j : String) (v : V) (m : JsMap V)
      → get j (set k v m) ≡ (if k == j then some v else get j m)
  unfolding get set
  get-set k j v [] = refl
  get-set k j v ((i, w) ∷ m) = ground (arith, eq_iff k j, eq_iff i k, eq_iff i j, get-set k j v m)

  pub get-delete :
      (k j : String) (m : JsMap V) → get j (delete k m) ≡ (if k == j then none else get j m)
  unfolding get delete
  get-delete k j [] = ground arith
  get-delete k j ((i, w) ∷ m) = ground (arith, eq_iff k j, eq_iff i k, eq_iff i j, get-delete k j m)

  -- No key stands twice.
  abbrev pub IsDistinct : JsMap V → Type ℓ
  IsDistinct [] = Unit
  IsDistinct ((k, v) ∷ m) = (get k m ≡ none) × IsDistinct m

  pub set-IsDistinct : (k : String) (v : V) (m : JsMap V) → IsDistinct m → IsDistinct (set k v m)
  unfolding set get
  set-IsDistinct k v [] d = (refl, tt)
  set-IsDistinct k v ((j, w) ∷ m) d =
      ground (arith, eq_iff j k, eq_iff k j, get-set k j v m, set-IsDistinct k v m d.1)

  pub delete-IsDistinct : (k : String) (m : JsMap V) → IsDistinct m → IsDistinct (delete k m)
  unfolding delete
  delete-IsDistinct k [] d = tt
  delete-IsDistinct k ((j, w) ∷ m) d =
      ground (arith, eq_iff j k, get-delete k j m, delete-IsDistinct k m d.1)

  -- Writing a new key adds one entry; writing a present one adds none.
  size-set :
      (k : String) (v : V) (m : JsMap V)
      → size (set k v m) ≡ (if has k m then size m else suc (size m))
  unfolding set get
  size-set k v [] = refl
  size-set k v ((j, w) ∷ m) = ground (arith, size-set k v m)

  pub delete_absent : (k : String) (m : JsMap V) → get k m ≡ none → delete k m ≡ m
  unfolding get delete
  delete_absent k [] h = refl
  delete_absent k ((j, w) ∷ m) h = ground (arith, delete_absent k m)

  -- Each listed key is present.
  keys-weaken :
      (k : String) (w : V) (m n : JsMap V)
      → All (λ c. (t : V) × (get c m ≡ some t)) (keys n)
      → All (λ c. (t : V) × (get c ((k, w) ∷ m) ≡ some t)) (keys n)
  unfolding get
  keys-weaken k w m [] a = tt
  keys-weaken k w m ((c, x) ∷ n) a = (
    elim (Bool-cases (k == c)) [ inl e ↦ (w, rw e) | inr e ↦ (a.0.0, rw e a.0.1) ],
    keys-weaken k w m n a.1,
  )

  pub keys-present : (m : JsMap V) → All (λ c. (t : V) × (get c m ≡ some t)) (keys m)
  unfolding get
  keys-present [] = tt
  keys-present ((k, w) ∷ m) = ((w, rw (eq_refl k)), keys-weaken k w m m (keys-present m))
