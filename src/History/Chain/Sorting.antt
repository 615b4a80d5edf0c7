-- ===== src/History/Chain/Sorting.antt =====
-- Lemmas on the sort by time of claude-history-reader.ts.
use mathlib.Core.List.Perm
use mathlib.Core.List.{Perm}
use private_agent_platform.Base.{ℕ, String, List, [], ◌∷◌, leb, All, Bool-cases, inl, inr}
use private_agent_platform.Types.{ConversationMessage}
use private_agent_platform.History.Chain.{insert, sort}

module _ (time : String → ℕ) where
  insert-perm :
      (m : ConversationMessage) (xs : List ConversationMessage) → Perm (insert time m xs) (m ∷ xs)
  unfolding insert
  insert-perm m [] = Perm.refl (m ∷ [])
  insert-perm m (x ∷ xs) = elim (Bool-cases (leb (time m.timestamp) (time x.timestamp))) [
    | inl e ↦ rw e (Perm.refl (m ∷ x ∷ xs))
    | inr e ↦ rw e (Perm.trans (Perm.cons x (insert-perm m xs)) (Perm.swap m x xs))
  ]

  pub sort-perm : (xs : List ConversationMessage) → Perm (sort time xs) xs
  unfolding sort
  sort-perm [] = Perm.refl []
  sort-perm (x ∷ xs) = Perm.trans (insert-perm x (sort time xs)) (Perm.cons x (sort-perm xs))

  insert-All {ℓ} :
      (P : ConversationMessage → Type ℓ) (m : ConversationMessage) (xs : List ConversationMessage)
      → P m
      → All P xs
      → All P (insert time m xs)
  unfolding insert
  insert-All P m [] p a = (p, tt)
  insert-All P m (x ∷ xs) p a = elim (Bool-cases (leb (time m.timestamp) (time x.timestamp))) [
    | inl e ↦ rw e (p, a)
    | inr e ↦ rw e (a.0, insert-All P m xs p a.1)
  ]

  pub sort-All {ℓ} :
      (P : ConversationMessage → Type ℓ) (xs : List ConversationMessage)
      → All P xs
      → All P (sort time xs)
  unfolding sort
  sort-All P [] a = tt
  sort-All P (x ∷ xs) a = insert-All P x (sort time xs) a.0 (sort-All P xs a.1)
