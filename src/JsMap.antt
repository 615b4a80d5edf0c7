-- ===== src/JsMap.antt =====
-- JavaScript's `Map` with string keys: the entries in insertion order. `set` on a key that is
-- present keeps its place, `delete` removes the entry.
pub mod Index
pub mod Laws
use private_agent_platform.Base.{
  ℕ, String, Bool, List, [], ◌∷◌, map, Option, none, some, ◌==◌, if◌then◌else◌, is_some, length,
}

abbrev pub JsMap {ℓ} : Type ℓ → Type ℓ
JsMap V = List (String × V)

module _ {ℓ} {V : Type ℓ} where
  unfoldable pub get : String → JsMap V → Option V
  get k [] = none
  get k ((j, v) ∷ m) = if j == k then some v else get k m

  abbrev pub has : String → JsMap V → Bool
  has k m = is_some (get k m)

  unfoldable pub set : String → V → JsMap V → JsMap V
  set k v [] = (k, v) ∷ []
  set k v ((j, w) ∷ m) = if j == k then (j, v) ∷ m else (j, w) ∷ set k v m

  unfoldable pub delete : String → JsMap V → JsMap V
  delete k [] = []
  delete k ((j, w) ∷ m) = let rest = delete k m in if j == k then rest else (j, w) ∷ rest

  abbrev pub keys : JsMap V → List String
  keys = map (λ e. e.0)

  abbrev pub values : JsMap V → List V
  values = map (λ e. e.1)

  abbrev pub size : JsMap V → ℕ
  size = length
