-- ===== src/Base/Sorted.antt =====
-- What holds of each element, or of each pair, of a list holds after it is sorted.
use mathlib.Core.Bool.{Bool}
use mathlib.Core.List.{List, [], ◌∷◌}
use mathlib.Core.Logic.{inl, inr}
use agent_workspace_guard.Base.Test.{Bool-cases}
use agent_workspace_guard.Base.Lists.{All}
use agent_workspace_guard.Base.Order.{insert_by, sorted_by}

abbrev pub Pairwise : {A : Type 0} → (A → A → Type 0) → List A → Type 0
Pairwise R [] = Unit
Pairwise R (x ∷ xs) = All (R x) xs × Pairwise R xs

module _ {A : Type 0} (smaller : A → A → Bool) where
  All-insert_by :
      (P : A → Type 0) (x : A) (xs : List A) → P x → All P xs → All P (insert_by smaller x xs)
  unfolding insert_by
  All-insert_by P x [] h hs = (h, tt)
  All-insert_by P x (y ∷ ys) h (k, ks) = elim (Bool-cases (smaller y x)) [
    | inl before ↦ rw before (k, All-insert_by P x ys h ks)
    | inr after ↦ rw after (h, (k, ks))
  ]

  pub All-sorted_by : (P : A → Type 0) (xs : List A) → All P xs → All P (sorted_by smaller xs)
  unfolding sorted_by
  All-sorted_by P [] h = tt
  All-sorted_by P (x ∷ xs) (h, hs) =
      All-insert_by P x (sorted_by smaller xs) h (All-sorted_by P xs hs)

  module _ (R : A → A → Type 0) (symmetric : (x y : A) → R x y → R y x) where
    Pairwise-insert_by :
        (x : A) (xs : List A) → All (R x) xs → Pairwise R xs → Pairwise R (insert_by smaller x xs)
    unfolding insert_by
    Pairwise-insert_by x [] h hs = (tt, tt)
    Pairwise-insert_by x (y ∷ ys) (h, hs) (k, ks) = elim (Bool-cases (smaller y x)) [
      | inl before ↦
          rw before (All-insert_by (R y) x ys (symmetric x y h) k, Pairwise-insert_by x ys hs ks)
      | inr after ↦ rw after ((h, hs), (k, ks))
    ]

    pub Pairwise-sorted_by : (xs : List A) → Pairwise R xs → Pairwise R (sorted_by smaller xs)
    unfolding sorted_by
    Pairwise-sorted_by [] h = tt
    Pairwise-sorted_by (x ∷ xs) (h, hs) =
        Pairwise-insert_by x (sorted_by smaller xs) (All-sorted_by (R x) xs h)
          (Pairwise-sorted_by xs hs)
