-- ===== src/Base/Lists.antt =====
-- Lists measured by native numbers, and predicates on all their members.
use Prim.Native.Nat.{ℕ, zero, suc, ◌+◌}
use mathlib.Core.Path.{◌≡◌, refl, ap, subst}
use mathlib.Core.Bool.{Bool, true, false, ◌&&◌, ◌||◌}
use mathlib.Core.Logic.{inl, inr}
use mathlib.Core.List.{List, [], ◌∷◌, ◌++◌}
use native.Mathlib.Omega.{arith}
use agent_workspace_guard.Base.Test.{if◌then◌else◌, Bool-cases}
use agent_workspace_guard.Base.Equality.{Eq, ◌==◌, contains}

module _ {ℓ} {A : Type ℓ} where
  abbrev pub length : List A → ℕ
  length [] = 0
  length (x ∷ xs) = suc (length xs)

  abbrev pub take : ℕ → List A → List A
  take zero xs = []
  take (suc n) [] = []
  take (suc n) (x ∷ xs) = x ∷ take n xs

  pub length-append : (xs ys : List A) → length (xs ++ ys) ≡ length xs + length ys
  length-append [] ys = omega arith
  length-append (x ∷ xs) ys = omega (arith, length-append xs ys)

  pub take-length-append : (xs ys : List A) → take (length xs) (xs ++ ys) ≡ xs
  take-length-append [] ys = refl
  take-length-append (x ∷ xs) ys = ap (λ zs. x ∷ zs) (take-length-append xs ys)

  -- Python's `any` and `all` over a generator.
  abbrev pub any : (A → Bool) → List A → Bool
  any p [] = false
  any p (x ∷ xs) = p x || any p xs

  abbrev pub all : (A → Bool) → List A → Bool
  all p [] = true
  all p (x ∷ xs) = p x && all p xs

  abbrev pub All {κ} : (A → Type κ) → List A → Type κ
  All P [] = Unit
  All P (x ∷ xs) = P x × All P xs

  -- `[x for x in xs if p x]`
  unfoldable pub filter : (A → Bool) → List A → List A
  filter p [] = []
  filter p (x ∷ xs) = let rest = filter p xs in if p x then x ∷ rest else rest

  -- `xs[:-1]`
  abbrev pub init : List A → List A
  init [] = []
  init (x ∷ []) = []
  init (x ∷ y ∷ xs) = x ∷ init (y ∷ xs)

  abbrev pub last_or : A → List A → A
  last_or d [] = d
  last_or d (x ∷ xs) = last_or x xs

module _ {ℓ} {A : Type ℓ} ⦃e : Eq A⦄ where
  pub contains-append :
      (xs ys : List A) (a : A) → contains (xs ++ ys) a ≡ (contains xs a || contains ys a)
  contains-append [] ys a = refl
  contains-append (x ∷ xs) ys a = ground (arith, contains-append xs ys a)

  pub All-of_contains :
      (P : A → Type 0) (xs : List A) (a : A) → All P xs → contains xs a ≡ true → P a
  All-of_contains P [] a h m = cc
  All-of_contains P (x ∷ xs) a (p, h) m = elim (Bool-cases (a == x)) [
    | inl same ↦ subst P (ground arith) p
    | inr other ↦ All-of_contains P xs a h (ground arith)
  ]

  -- `xs[:len(ys)] == ys`, and `xs.startswith(ys)`
  unfoldable pub starts_with : List A → List A → Bool
  starts_with xs [] = true
  starts_with [] (y ∷ ys) = false
  starts_with (x ∷ xs) (y ∷ ys) = x == y && starts_with xs ys

  pub starts_with-append : (xs ys : List A) → starts_with (xs ++ ys) xs ≡ true
  unfolding starts_with
  starts_with-append [] ys = refl
  starts_with-append (x ∷ xs) ys = ground (arith, starts_with-append xs ys)
