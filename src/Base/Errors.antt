-- ===== src/Base/Errors.antt =====
-- errors.py: the exceptions of the program, as results. `builtin` is any exception that is no
-- `GuardError` (KeyError, ValueError, TypeError, IndexError, UnicodeEncodeError). Messages are left out.
use mathlib.Core.Path.{◌≡◌, refl}
use mathlib.Core.Bool.{Bool, true, false}
use mathlib.Core.List.{List, [], ◌∷◌}

pub data Error : Type 0 where
  guard_error policy_denied stale_plan approval_error integrity_error unsafe_path builtin : Error

-- `except GuardError` catches the class and its subclasses.
abbrev pub is_guard_error : Error → Bool
is_guard_error builtin = false
is_guard_error _ = true

-- What a call does: it returns, or it raises.
pub data Result {ℓ} (A : Type ℓ) : Type ℓ where
  ok : A → Result A
  err : Error → Result A

abbrev pub Succeeds {ℓ} : {A : Type ℓ} → Result A → Type ℓ
Succeeds {A} r = (a : A) × (r ≡ ok a)

-- A statement and what follows it: an exception skips the rest.
infixl 5 ◌>>=◌
abbrev pub ◌>>=◌ {ℓ κ} : {A : Type ℓ} {B : Type κ} → Result A → (A → Result B) → Result B
err raised >>= rest = err raised
ok value >>= rest = rest value

infixl 5 ◌>>◌
abbrev pub ◌>>◌ {κ} : {B : Type κ} → Result (Unit {0}) → Result B → Result B
first >> rest = first >>= λ _. rest

-- `if test: raise e`
abbrev pub refuse : Bool → Error → Result (Unit {0})
refuse true e = err e
refuse false e = ok tt

-- `except GuardError as exc: raise e from exc`
abbrev pub recast {ℓ} : {A : Type ℓ} → Error → Result A → Result A
recast e (ok a) = ok a
recast e (err builtin) = err builtin
recast e (err _) = err e

abbrev pub traverse {ℓ κ} : {A : Type ℓ} {B : Type κ} → (A → Result B) → List A → Result (List B)
traverse f [] = ok []
traverse f (x ∷ xs) = do y ← f x; ys ← traverse f xs; ok (y ∷ ys)

-- A `for` loop whose body only raises or goes on.
abbrev pub for_each {ℓ} : {A : Type ℓ} → (A → Result (Unit {0})) → List A → Result (Unit {0})
for_each f [] = ok tt
for_each f (x ∷ xs) = do f x; for_each f xs

-- A sequence that returns has returned from both of its parts.
pub >>=-eq-ok {ℓ κ} :
    {A : Type ℓ} {B : Type κ} (first : Result A) (rest : A → Result B) {returned : B}
    → (first >>= rest) ≡ ok returned
    → (value : A) × (first ≡ ok value) × (rest value ≡ ok returned)
>>=-eq-ok (err raised) rest h = cc
>>=-eq-ok (ok value) rest h = (value, refl, h)

pub ok-injective {ℓ} : {A : Type ℓ} {a b : A} → ok a ≡ ok b → a ≡ b
ok-injective h = cc

-- Code behind a test is reached only if the test has failed.
pub refuse-eq-ok {κ} :
    {B : Type κ} (test : Bool) (raised : Error) (rest : Result B) {returned : B}
    → (refuse test raised >> rest) ≡ ok returned
    → (test ≡ false) × (rest ≡ ok returned)
refuse-eq-ok true raised rest h = cc
refuse-eq-ok false raised rest h = (refl, h)
