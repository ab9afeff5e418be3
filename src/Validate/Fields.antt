-- ===== src/Validate/Fields.antt =====
-- Text fields and leases.
use agent_workspace_guard.Base.{
  ◌≡◌, ◌≢◌, ◌↔◌, refl, sym, ap, ◌∙◌, ℕ, false, inl, inr, Bool-cases, [], ◌∷◌, ◌++◌, reverse, Text,
  nat_eq, list_eq, any, length, arith, ℤ, pos, ◌≤ℤ◌, ok, ◌≤◌,
}
use mathlib.Core.List.{reverse-append, reverse-reverse}
use agent_workspace_guard.Validate.{
  is_space, strip_left, strip, is_control, validate_text_field, validate_ttl,
}

-- The first character is no space.
abbrev Starts : Text → Type 0
Starts [] = Unit
Starts (c ∷ text) = is_space c ≡ false

strip_left-Starts : (text : Text) → Starts (strip_left text)
unfolding strip_left
strip_left-Starts [] = tt
strip_left-Starts (c ∷ text) = elim (Bool-cases (is_space c)) [
  | inl space ↦ rw space (strip_left-Starts text)
  | inr other ↦ rw other other
]

Starts-strip_left : (text : Text) → Starts text → strip_left text ≡ text
unfolding strip_left
Starts-strip_left [] h = refl
Starts-strip_left (c ∷ text) h = rw h

-- What `strip_left` takes off stands in front.
strip_left_suffix : (text : Text) → (front : Text) × (text ≡ front ++ strip_left text)
unfolding strip_left
strip_left_suffix [] = ([], refl)
strip_left_suffix (c ∷ text) = elim (Bool-cases (is_space c)) [
  | inl space ↦ let (front, e) = strip_left_suffix text in rw space (c ∷ front, ap (λ t. c ∷ t) e)
  | inr other ↦ rw other ([], refl)
]

Starts-append : (xs ys : Text) → Starts (xs ++ ys) → Starts xs
Starts-append [] ys h = tt
Starts-append (x ∷ xs) ys h = h

strip_start : (text : Text) → Starts (strip text)
unfolding strip
strip_start text =
    let (front, e) = strip_left_suffix (reverse (strip_left text)) in
    let back : strip_left text ≡ strip text ++ reverse front =
      sym (reverse-reverse (strip_left text))
      ∙ ap reverse e
      ∙ reverse-append front (strip_left (reverse (strip_left text))) in
    Starts-append (strip text) (reverse front) (rw (← back) (strip_left-Starts text))

strip_idem : (text : Text) → strip (strip text) ≡ strip text
unfolding strip
strip_idem text = rw (Starts-strip_left (strip text) (strip_start text)) (
    rw (reverse-reverse (strip_left (reverse (strip_left text))))
      (rw (Starts-strip_left _ (strip_left-Starts (reverse (strip_left text))))))

-- An accepted text is not empty, fits the limit, holds no control character, and is accepted as it
-- stands when it is checked again.
pub validate_text_field_idem :
    (value : Text) (max_length : ℕ) (text : Text)
    → validate_text_field value max_length ≡ ok text
    → (text ≢ [])
      × (length text ≤ max_length)
      × (any is_control text ≡ false)
      × (validate_text_field text max_length ≡ ok text)
unfolding validate_text_field
validate_text_field_idem value max_length text h = ground (arith, strip_idem value)

pub validate_ttl_iff :
    (value maximum : ℤ)
    → (validate_ttl value maximum ≡ ok value) ↔ ((pos 1 ≤ℤ value) × (value ≤ℤ maximum))
unfolding validate_ttl
validate_ttl_iff value maximum = ground arith
