-- ===== src/FileSystem/Near.antt =====
-- Files that are those of before, but for a new directory where there was nothing.
use agent_workspace_guard.Base.{
  ◌≡◌, ◌⊎◌, inl, refl, sym, ap, ◌∙◌, true, false, Option, none, some, List, [], ◌++◌, append-nil,
  arith, starts_with, list_eq, nat_eq,
}
use agent_workspace_guard.Paths.{FilePath}
use agent_workspace_guard.FileSystem.{Node, Files, lexists, new_directory, moved, grown}
use agent_workspace_guard.FileSystem.Moves.{
  Separate, moved_target, moved_other, grown_old, Like, starts_with-Separate,
}

abbrev pub Near : Option Node → Option Node → Type 0
Near old new = (new ≡ old) ⊎ ((old ≡ none) × (new ≡ some new_directory))

pub Near-refl : (a : Option Node) → Near a a
Near-refl a = inl refl

pub Near-trans : (a b c : Option Node) → Near a b → Near b c → Near a c
Near-trans a b c h k = ground (arith, h, k)

pub Near-grown :
    (folder path : FilePath) (files : Files) → Near (files path) (grown folder files path)
Near-grown folder path files = grown_old folder path files

pub Like-Near :
    (folders : List FilePath) (old new : Files)
    → Like folders old new
    → (path : FilePath) → Near (old path) (new path)
Like-Near folders old new h path = ground (arith, h path)

pub lexists-Near :
    (path : FilePath) (old new : Files)
    → Near (old path) (new path)
    → lexists path old ≡ true
    → lexists path new ≡ true
lexists-Near path old new h there = ground (arith, h)

pub lexists-grown :
    (folder path : FilePath) (files : Files)
    → lexists path files ≡ true
    → lexists path (grown folder files) ≡ true
lexists-grown folder path files there =
    lexists-Near path files (grown folder files) (Near-grown folder path files) there

-- The root of a moved tree.
pub moved_root :
    (source target : FilePath) (files : Files) → moved source target files target ≡ files source
moved_root source target files =
    ap (moved source target files) (sym (append-nil target))
    ∙ moved_target source target [] files
    ∙ ap files (append-nil source)

pub lexists-moved :
    (source target : FilePath) (files : Files)
    → lexists source files ≡ true
    → lexists target (moved source target files) ≡ true
lexists-moved source target files there = ground (arith, moved_root source target files)

-- A path that lies below neither end of a move.
pub Near-moved :
    (source target path : FilePath) (files : Files)
    → starts_with path source ≡ false
    → starts_with path target ≡ false
    → Near (files path) (moved source target files path)
Near-moved source target path files h k = inl (moved_other source target path files h k)

pub Separate-sym : (a b : FilePath) → Separate a b → Separate b a
Separate-sym a b h = record { not_below = h.not_above; not_above = h.not_below }

-- What lies below one of three separate places is kept by a move between the other two.
pub Near-moved_below :
    (source target root rest : FilePath) (files : Files)
    → Separate root source
    → Separate root target
    → Near (files (root ++ rest)) (moved source target files (root ++ rest))
Near-moved_below source target root rest files h k =
    Near-moved source target (root ++ rest) files (starts_with-Separate root source rest h)
      (starts_with-Separate root target rest k)

infixl 30 ◌▹◌
pub ◌▹◌ : {a b c : Option Node} → Near a b → Near b c → Near a c
◌▹◌ {a} {b} {c} h k = Near-trans a b c h k
