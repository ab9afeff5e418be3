-- ===== src/FileSystem/Moves.antt =====
-- What a move and a new directory do to each path.
use agent_workspace_guard.Base.{
  ◌≡◌, ◌∙◌, ◌⊎◌, inl, inr, refl, Bool-cases, true, false, none, some, List, [], ◌∷◌, ◌++◌, ◌==◌,
  eq_refl, eq_sound, nat_eq, list_eq, starts_with, starts_with-append, any, arith,
}
use agent_workspace_guard.Paths.{FilePath}
use agent_workspace_guard.FileSystem.{Files, new_directory, skip, moved, grown}

-- Neither path lies in the other.
pub record Separate (a b : FilePath) : Type 0 where
  pub not_below : starts_with a b ≡ false
  pub not_above : starts_with b a ≡ false

pub skip-append : (path rest : FilePath) → skip path (path ++ rest) ≡ rest
unfolding skip
skip-append [] rest = refl
skip-append (part ∷ path) rest = skip-append path rest

-- A path below another has those parts in front.
pub starts_with_split :
    (path root : FilePath)
    → starts_with path root ≡ true
    → (rest : FilePath) × (path ≡ root ++ rest)
unfolding starts_with
starts_with_split path [] h = (path, refl)
starts_with_split [] (part ∷ root) h = cc
starts_with_split (first ∷ path) (part ∷ root) h =
    let (rest, e) = starts_with_split path root (ground arith) in
    let same : first ≡ part = eq_sound first part (ground arith) in (rest, cc)

-- Whoever lies below one of two separate paths does not lie below the other.
pub starts_with-Separate : (a b rest : FilePath) → Separate a b → starts_with (a ++ rest) b ≡ false
unfolding starts_with
starts_with-Separate a [] rest h = let e = h.not_below in cc
starts_with-Separate [] (y ∷ b) rest h = let e = h.not_above in cc
starts_with-Separate (x ∷ a) (y ∷ b) rest h = elim (Bool-cases (x == y)) [
  | inl same ↦
      let e : x ≡ y = eq_sound x y same in
      let below = h.not_below in
      let above = h.not_above in
      rw same (
        starts_with-Separate a b rest
          (record { not_below = ground arith; not_above = ground (arith, eq_refl x) }))
  | inr other ↦ rw other
]

pub moved_target :
    (source target rest : FilePath) (files : Files)
    → moved source target files (target ++ rest) ≡ files (source ++ rest)
unfolding moved
moved_target source target rest files = rw (starts_with-append target rest, skip-append target rest)

pub moved_source :
    (source target rest : FilePath) (files : Files)
    → Separate source target
    → moved source target files (source ++ rest) ≡ none
unfolding moved
moved_source source target rest files h =
    rw (starts_with-Separate source target rest h, starts_with-append source rest)

pub moved_other :
    (source target path : FilePath) (files : Files)
    → starts_with path source ≡ false
    → starts_with path target ≡ false
    → moved source target files path ≡ files path
unfolding moved
moved_other source target path files h k = rw (h, k)

pub grown_other :
    (folder path : FilePath) (files : Files)
    → starts_with folder path ≡ false
    → grown folder files path ≡ files path
unfolding grown
grown_other folder path files h = ground arith

pub grown_old :
    (folder path : FilePath) (files : Files)
    → (grown folder files path ≡ files path)
      ⊎ ((files path ≡ none) × (grown folder files path ≡ some new_directory))
unfolding grown
grown_old folder path files = ground arith

-- The files are those of before, but for directories made where an ancestor of some folder was missing.
abbrev pub Like : List FilePath → Files → Files → Type 0
Like folders old new =
    (path : FilePath)
    → (new path ≡ old path)
      ⊎ ((old path ≡ none)
          × (new path ≡ some new_directory)
          × (any (λ folder. starts_with folder path) folders ≡ true))

pub Like-refl : (folders : List FilePath) (files : Files) → Like folders files files
Like-refl folders files path = inl refl

pub Like-trans :
    (folders : List FilePath) (a b c : Files)
    → Like folders a b
    → Like folders b c
    → Like folders a c
Like-trans folders a b c h k path = ground (arith, h path, k path)

pub Like-grown :
    (folders : List FilePath) (folder : FilePath) (old new : Files)
    → ((path : FilePath)
        → starts_with folder path ≡ true
        → any (λ f. starts_with f path) folders ≡ true)
    → Like folders old new
    → Like folders old (grown folder new)
unfolding grown
Like-grown folders folder old new within h path = ground (arith, h path, within path)

starts_with-prefix : (q r s : FilePath) → starts_with (q ++ r) (q ++ s) ≡ starts_with r s
unfolding starts_with
starts_with-prefix [] r s = refl
starts_with-prefix (x ∷ q) r s = rw (eq_refl x) (starts_with-prefix q r s)

pub Separate-prefix : (q r s : FilePath) → Separate r s → Separate (q ++ r) (q ++ s)
Separate-prefix q r s h = record {
  not_below = starts_with-prefix q r s ∙ h.not_below;
  not_above = starts_with-prefix q s r ∙ h.not_above;
}
