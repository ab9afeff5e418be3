-- ===== src/Policy/Symlink/Walk.antt =====
-- The walk of `_unsafe_symlink_reason` of src/agent_workspace_guard/policy.py and where it may go.
use agent_workspace_guard.Base.{
  ◌≡◌, ◌≢◌, ◌↔◌, refl, ap, ℕ, suc, ◌+◌, ◌≤◌, ◌<◌, Bool-cases, Option-cases, inl, inr, false, ◌||◌,
  none, some, List, [], ◌∷◌, ◌++◌, Text, ◌==◌, nat_eq, list_eq, init, length, length-append,
  replace, arith, if◌then◌else◌,
}
use agent_workspace_guard.Paths.{FilePath, slash, dot, dot_dot, parse, parent}
use mathlib.Core.Option.{none-ne-some}
use agent_workspace_guard.Paths.Safe.Joined.{IsPlain, windows_absolute-drive}
use agent_workspace_guard.Host.{CaseTables}
use agent_workspace_guard.Policy.Symlink.{walk, is_protected, reason_in, unsafe_symlink_reason}

-- The steps up, and the steps down, of a walk.
abbrev pub ups : FilePath → ℕ
ups [] = 0
ups (part ∷ parts) = (if part == dot_dot then 1 else 0) + ups parts

abbrev pub downs : FilePath → ℕ
downs [] = 0
downs (part ∷ parts) = (if part == [] || part == dot || part == dot_dot then 0 else 1) + downs parts

-- Some beginning of the walk goes up more often than the depth and the steps down allow.
abbrev pub Escapes : ℕ → FilePath → Type 0
Escapes depth parts =
    (front back : FilePath) × (parts ≡ front ++ back) × (depth + downs front < ups front)

-- Each beginning of the walk stays at or below its root.
abbrev pub StaysInside : ℕ → FilePath → Type 0
StaysInside depth parts =
    (front back : FilePath) → parts ≡ front ++ back → ups front ≤ depth + downs front

length-init : (c : Text) (cs : FilePath) → suc (length (init (c ∷ cs))) ≡ length (c ∷ cs)
length-init c [] = refl
length-init c (d ∷ cs) = ap suc (length-init d cs)

init_depth : (cs : FilePath) → cs ≢ [] → suc (length (init cs)) ≡ length cs
init_depth [] h = absurd (h refl)
init_depth (c ∷ cs) h = length-init c cs

one_step :
    (depth depth' : ℕ) (part : Text) (parts : FilePath)
    → depth + downs (part ∷ []) ≡ depth' + ups (part ∷ [])
    → Escapes depth' parts
    → Escapes depth (part ∷ parts)
one_step depth depth' part parts e (front, back, same, h) =
    (part ∷ front, back, ap (λ rest. part ∷ rest) same, omega arith)

walk-none : (cs parts : FilePath) → walk cs parts ≡ none → Escapes (length cs) parts
unfolding walk
walk-none cs [] h = cc
walk-none cs (part ∷ parts) h = elim (Bool-cases (part == [] || part == dot)) [
  | inl k ↦
      one_step (length cs) (length cs) part parts (ground arith) (walk-none cs parts (rw k at h))
  | inr k ↦ elim (Bool-cases (part == dot_dot)) [
    | inl u ↦ elim (Bool-cases (cs == [])) [
      | inl e ↦ (part ∷ [], parts, refl, ground arith)
      | inr e ↦
          one_step (length cs) (length (init cs)) part parts (ground (arith, init_depth cs))
            (walk-none (init cs) parts (rw (k, u, e) at h))
    ]
    | inr u ↦
        one_step (length cs) (length (cs ++ (part ∷ []))) part parts
          (ground (arith, length-append cs (part ∷ [])))
          (walk-none (cs ++ (part ∷ [])) parts (rw (k, u) at h))
  ]
]

next_step :
    (depth depth' : ℕ) (part : Text) (parts : FilePath)
    → depth + downs (part ∷ []) ≡ depth' + ups (part ∷ [])
    → StaysInside depth' parts
    → StaysInside depth (part ∷ parts)
next_step depth depth' part parts e h [] back same = omega arith
next_step depth depth' part parts e h (q ∷ front) back same =
    let rest : parts ≡ front ++ back = cc in
    let first : part ≡ q = cc in let inside = h front back rest in rw (← first) (omega arith)

walk-some :
    (cs parts result : FilePath) → walk cs parts ≡ some result → StaysInside (length cs) parts
unfolding walk
walk-some cs [] result h = λ front back same.
    elim front as (λ f. [] ≡ f ++ back → ups f ≤ length cs + downs f) [
      | [] ↦ λ e. omega arith
      | q ∷ f ↦ λ e. cc
    ]
      same
walk-some cs (part ∷ parts) result h = elim (Bool-cases (part == [] || part == dot)) [
  | inl k ↦
      next_step (length cs) (length cs) part parts (ground arith)
        (walk-some cs parts result (rw k at h))
  | inr k ↦ elim (Bool-cases (part == dot_dot)) [
    | inl u ↦ elim (Bool-cases (cs == [])) [
      | inl e ↦ absurd (none-ne-some result (rw (k, u, e) at h))
      | inr e ↦
          next_step (length cs) (length (init cs)) part parts (ground (arith, init_depth cs))
            (walk-some (init cs) parts result (rw (k, u, e) at h))
    ]
    | inr u ↦
        next_step (length cs) (length (cs ++ (part ∷ []))) part parts
          (ground (arith, length-append cs (part ∷ [])))
          (walk-some (cs ++ (part ∷ [])) parts result (rw (k, u) at h))
  ]
]

inside_not-Escapes :
    (depth : ℕ) (parts : FilePath) → StaysInside depth parts → ¬ Escapes depth parts
inside_not-Escapes depth parts h (front, back, same, over) =
    let k = h front back same in omega arith

module _ (cases : CaseTables) where
  -- What the walk from a link must do: it stays inside the workspace, and its end lies in no
  -- protected directory.
  abbrev pub IsContained : List Text → FilePath → FilePath → Type 0
  IsContained protected_top_level start parts =
      StaysInside (length start) parts
      × ((reached : FilePath)
          → walk start parts ≡ some reached
          → is_protected cases protected_top_level reached ≡ false)

  reason_in_iff :
      (protected_top_level : List Text) (start parts : FilePath)
      → (reason_in cases protected_top_level (walk start parts) ≡ none)
        ↔ IsContained protected_top_level start parts
  unfolding reason_in
  reason_in_iff protected_top_level start parts = elim (Option-cases (walk start parts)) [
    | inl e ↦ (λ h. cc, λ h. absurd (inside_not-Escapes _ parts h.0 (walk-none start parts e)))
    | inr (reached, e) ↦ (
      λ h. (walk-some start parts reached e, λ r k. ground arith),
      λ h. let free = h.1 reached e in ground arith,
    )
  ]

  -- A target is accepted exactly when it is a plain, non-empty text, and the walk along it, with
  -- backslashes read as slashes, from the directory of the link never rises above the workspace
  -- root and does not end in a protected directory.
  pub unsafe_symlink_reason_iff :
      (link_path target : Text) (protected_top_level : List Text)
      → (unsafe_symlink_reason cases link_path (some target) protected_top_level ≡ none) ↔ (
          (target ≢ [])
          × IsPlain target
          × IsContained protected_top_level
              (parent (parse link_path))
              (parse (replace b'\\' slash target)))
  unfolding unsafe_symlink_reason
  unsafe_symlink_reason_iff link_path target protected_top_level =
      let ends =
        reason_in_iff protected_top_level (parent (parse link_path))
          (parse (replace b'\\' slash target)) in
      (
        λ h. (ground arith, ground arith, ends.0 (ground arith)),
        λ h. ground (arith, ends.1 h.2, windows_absolute-drive target h.1.no_drive),
      )
