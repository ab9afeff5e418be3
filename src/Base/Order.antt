-- ===== src/Base/Order.antt =====
-- The order of Python's `str`: lexicographic, by code point. Sorting, and sorted sets of texts.
use mathlib.Core.Path.{◌≡◌, refl}
use mathlib.Core.Logic.{◌⊎◌, inl, inr}
use mathlib.Core.Bool.{Bool, true, false, ◌||◌}
use mathlib.Core.List.{List, [], ◌∷◌}
use native.Mathlib.Omega.{arith}
use agent_workspace_guard.Base.Test.{ltb, if◌then◌else◌, Bool-cases}
use agent_workspace_guard.Base.Equality.{Text, ◌==◌, contains, list_eq, nat_eq}
use agent_workspace_guard.Base.Lists.{All}

unfoldable pub text_ltb : Text → Text → Bool
text_ltb [] [] = false
text_ltb [] (b ∷ t) = true
text_ltb (a ∷ s) [] = false
text_ltb (a ∷ s) (b ∷ t) =
    let rest = text_ltb s t in if ltb a b then true else if ltb b a then false else rest

pub text_ltb_irrefl : (s : Text) → text_ltb s s ≡ false
unfolding text_ltb
text_ltb_irrefl [] = refl
text_ltb_irrefl (a ∷ s) = ground (arith, text_ltb_irrefl s)

pub text_ltb_trans :
    (s t u : Text) → text_ltb s t ≡ true → text_ltb t u ≡ true → text_ltb s u ≡ true
unfolding text_ltb
text_ltb_trans [] [] u h k = cc
text_ltb_trans [] (b ∷ t) [] h k = cc
text_ltb_trans [] (b ∷ t) (c ∷ u) h k = refl
text_ltb_trans (a ∷ s) [] u h k = cc
text_ltb_trans (a ∷ s) (b ∷ t) [] h k = cc
text_ltb_trans (a ∷ s) (b ∷ t) (c ∷ u) h k = ground (arith, text_ltb_trans s t u)

-- Two texts of which neither is smaller are equal.
pub eq_of_not_ltb : (s t : Text) → text_ltb s t ≡ false → text_ltb t s ≡ false → s ≡ t
unfolding text_ltb
eq_of_not_ltb [] [] h k = refl
eq_of_not_ltb [] (b ∷ t) h k = cc
eq_of_not_ltb (a ∷ s) [] h k = cc
eq_of_not_ltb (a ∷ s) (b ∷ t) h k = ground (arith, eq_of_not_ltb s t)

-- `sorted`, which is stable: an insertion sort by the test of "smaller".
module _ {ℓ} {A : Type ℓ} (smaller : A → A → Bool) where
  unfoldable pub insert_by : A → List A → List A
  insert_by x [] = x ∷ []
  insert_by x (y ∷ ys) = let rest = insert_by x ys in if smaller y x then y ∷ rest else x ∷ y ∷ ys

  unfoldable pub sorted_by : List A → List A
  unfolding insert_by
  sorted_by [] = []
  sorted_by (x ∷ xs) = insert_by x (sorted_by xs)

-- Membership that keeps its evidence.
abbrev pub In : {A : Type 0} → A → List A → Type 0
In a [] = ⊥
In a (x ∷ xs) = (a ≡ x) ⊎ In a xs

module _ {A : Type 0} (smaller : A → A → Bool) where
  In-insert_by : (a x : A) (xs : List A) → In a (x ∷ xs) → In a (insert_by smaller x xs)
  unfolding insert_by
  In-insert_by a x [] h = h
  In-insert_by a x (y ∷ xs) h = elim (Bool-cases (smaller y x)) [
    | inl s ↦ rw s (later (In-insert_by a x xs) h)
    | inr s ↦ rw s h
  ]
    where
      later :
          (In a (x ∷ xs) → In a (insert_by smaller x xs))
          → In a (x ∷ y ∷ xs)
          → In a (y ∷ insert_by smaller x xs)
      later ih (inl p) = inr (ih (inl p))
      later ih (inr (inl p)) = inl p
      later ih (inr (inr q)) = inr (ih (inr q))

  insert_by-In : (a x : A) (xs : List A) → In a (insert_by smaller x xs) → In a (x ∷ xs)
  unfolding insert_by
  insert_by-In a x [] h = h
  insert_by-In a x (y ∷ xs) h = elim (Bool-cases (smaller y x)) [
    | inl s ↦ later (insert_by-In a x xs) (rw s at h)
    | inr s ↦ rw s at h
  ]
    where
      later :
          (In a (insert_by smaller x xs) → In a (x ∷ xs))
          → In a (y ∷ insert_by smaller x xs)
          → In a (x ∷ y ∷ xs)
      later ih (inl p) = inr (inl p)
      later ih (inr q) = elim (ih q) [ inl p ↦ inl p | inr r ↦ inr (inr r) ]

  pub In-sorted_by : (a : A) (xs : List A) → In a xs → In a (sorted_by smaller xs)
  unfolding sorted_by
  In-sorted_by a [] h = h
  In-sorted_by a (x ∷ xs) (inl p) = In-insert_by a x _ (inl p)
  In-sorted_by a (x ∷ xs) (inr q) = In-insert_by a x _ (inr (In-sorted_by a xs q))

  pub sorted_by-In : (a : A) (xs : List A) → In a (sorted_by smaller xs) → In a xs
  unfolding sorted_by
  sorted_by-In a [] h = h
  sorted_by-In a (x ∷ xs) h = elim (insert_by-In a x (sorted_by smaller xs) h) [
    | inl p ↦ inl p
    | inr q ↦ inr (sorted_by-In a xs q)
  ]

-- `sorted(set(…))`: each text once, in ascending order.
unfoldable pub add_sorted : Text → List Text → List Text
add_sorted x [] = x ∷ []
add_sorted x (y ∷ ys) =
    let rest = add_sorted x ys in
    if text_ltb x y then x ∷ y ∷ ys else if text_ltb y x then y ∷ rest else y ∷ ys

unfoldable pub sorted_set : List Text → List Text
unfolding add_sorted text_ltb
sorted_set [] = []
sorted_set (x ∷ xs) = add_sorted x (sorted_set xs)

-- Strictly ascending, so without duplicates.
abbrev pub IsAscending : List Text → Type 0
IsAscending [] = Unit
IsAscending (x ∷ xs) = All (λ y. text_ltb x y ≡ true) xs × IsAscending xs

All-trans :
    (x y : Text) (ys : List Text)
    → text_ltb x y ≡ true
    → All (λ z. text_ltb y z ≡ true) ys
    → All (λ z. text_ltb x z ≡ true) ys
All-trans x y [] h k = tt
All-trans x y (z ∷ ys) h (k, ks) = (text_ltb_trans x y z h k, All-trans x y ys h ks)

All-add_sorted :
    (x y : Text) (ys : List Text)
    → text_ltb x y ≡ true
    → All (λ z. text_ltb x z ≡ true) ys
    → All (λ z. text_ltb x z ≡ true) (add_sorted y ys)
unfolding add_sorted
All-add_sorted x y [] h k = (h, tt)
All-add_sorted x y (z ∷ ys) h (k, ks) = ground (arith, All-add_sorted x y ys h ks)

add_sorted-IsAscending :
    (x : Text) (ys : List Text) → IsAscending ys → IsAscending (add_sorted x ys)
unfolding add_sorted
add_sorted-IsAscending x [] h = (tt, tt)
add_sorted-IsAscending x (y ∷ ys) (h, hs) =
    ground (arith, All-trans x y ys, All-add_sorted y x ys, add_sorted-IsAscending x ys hs)

pub sorted_set-IsAscending : (xs : List Text) → IsAscending (sorted_set xs)
unfolding sorted_set
sorted_set-IsAscending [] = tt
sorted_set-IsAscending (x ∷ xs) = add_sorted-IsAscending x _ (sorted_set-IsAscending xs)

contains-add_sorted :
    (x : Text) (ys : List Text) (a : Text)
    → contains (add_sorted x ys) a ≡ (a == x || contains ys a)
unfolding add_sorted
contains-add_sorted x [] a = refl
contains-add_sorted x (y ∷ ys) a = ground (arith, eq_of_not_ltb x y, contains-add_sorted x ys a)

pub contains-sorted_set : (xs : List Text) (a : Text) → contains (sorted_set xs) a ≡ contains xs a
unfolding sorted_set
contains-sorted_set [] a = refl
contains-sorted_set (x ∷ xs) a =
    ground (arith, contains-add_sorted x (sorted_set xs) a, contains-sorted_set xs a)
