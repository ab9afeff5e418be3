-- ===== src/Broker/Apply/Elsewhere.antt =====
-- What an operation leaves where a later operation's target lies: nothing, if nothing was there.
use agent_workspace_guard.Base.{
  ◌≡◌, inl, inr, refl, ◌∙◌, subst, Bool, Bool-cases, true, false, ◌&&◌, Option, none, [], ◌∷◌, ◌++◌,
  init, length, ◌==◌, arith, starts_with, list_eq, nat_eq, if◌then◌else◌,
}
use agent_workspace_guard.Paths.{FilePath, parent, is_absolute}
use agent_workspace_guard.Models.Enums.{EntryKind}
use agent_workspace_guard.Models.CommitOperation.{CommitOperation}
use agent_workspace_guard.FileSystem.{Files, moved}
use agent_workspace_guard.FileSystem.Moves.{Separate, starts_with-Separate, moved_other, Like}
use agent_workspace_guard.FileSystem.Near.{Separate-sym}
use agent_workspace_guard.Broker.Apply.Outcomes.{
  Outcome, Backed, Installed, untouched, backed, replaced, added,
}

-- `path` and `init path` start with the same.
starts_with-init :
    (path above : FilePath) → starts_with (init path) above ≡ true → starts_with path above ≡ true
unfolding starts_with
starts_with-init path [] h = refl
starts_with-init [] (a ∷ above) h = h
starts_with-init (x ∷ []) (a ∷ above) h = cc
starts_with-init (x ∷ y ∷ path) (a ∷ above) h = ground (arith, starts_with-init (y ∷ path) above)

starts_with-parent :
    (path above : FilePath) → starts_with (parent path) above ≡ true → starts_with path above ≡ true
unfolding parent
starts_with-parent path above h = elim (Bool-cases (is_absolute path && length path == 1)) [
  | inl root ↦ subst (λ c. starts_with (if c then path else init path) above ≡ true) root h
  | inr other ↦
      starts_with-init path above
        (subst (λ c. starts_with (if c then path else init path) above ≡ true) other h)
]

pub starts_with_longer :
    (path above rest : FilePath)
    → starts_with path (above ++ rest) ≡ true
    → starts_with path above ≡ true
unfolding starts_with
starts_with_longer path [] rest h = refl
starts_with_longer [] (x ∷ above) rest h = h
starts_with_longer (y ∷ path) (x ∷ above) rest h =
    ground (arith, starts_with_longer path above rest)

-- The parent of `path` does not lie below what is separate from `path`.
parent-Separate :
    (path root rest : FilePath)
    → Separate path root
    → starts_with (parent path) (root ++ rest) ≡ false
parent-Separate path root rest h = elim (Bool-cases (starts_with (parent path) (root ++ rest))) [
  | inl below ↦
      let e = starts_with-parent path root (starts_with_longer (parent path) root rest below) in
      let k = h.not_below in cc
  | inr c ↦ c
]

Like-none :
    (b d : FilePath) (old new : Files) (root rest : FilePath)
    → Separate b root
    → Separate d root
    → Like (parent b ∷ parent d ∷ []) old new
    → old (root ++ rest) ≡ none
    → new (root ++ rest) ≡ none
Like-none b d old new root rest h k like absent =
    ground
      (arith, like (root ++ rest), parent-Separate b root rest h, parent-Separate d root rest k)

moved-none :
    (source target : FilePath) (files : Files) (root rest : FilePath)
    → Separate source root
    → Separate target root
    → files (root ++ rest) ≡ none
    → moved source target files (root ++ rest) ≡ none
moved-none source target files root rest h k absent =
    moved_other source target (root ++ rest) files
      (starts_with-Separate root source rest (Separate-sym source root h))
      (starts_with-Separate root target rest (Separate-sym target root k))
    ∙ absent

module _ (files : Files) (operation : CommitOperation) (d b s root rest : FilePath)
    (from_d : Separate d root) (from_b : Separate b root) (from_s : Separate s root) where
  Backed-none :
      (now : Files) (op : CommitOperation)
      → Backed files operation d b s true now op
      → files (root ++ rest) ≡ none
      → now (root ++ rest) ≡ none
  Backed-none now op k absent =
      Like-none b d (moved d b k.before) now root rest from_b from_d k.like (
        moved-none d b k.before root rest from_d from_b
          (Like-none b d files k.before root rest from_b from_d k.before_like absent))

  Installed-none :
      (m now : Files) (was : Bool) (op : CommitOperation)
      → Installed files operation d b s m was true now op
      → m (root ++ rest) ≡ none
      → now (root ++ rest) ≡ none
  Installed-none m now was op k absent =
      Like-none b d (moved s d k.before) now root rest from_b from_d k.like (
        moved-none s d k.before root rest from_s from_d
          (Like-none b d m k.before root rest from_b from_d k.before_like absent))

  pub Outcome-none :
      (before_kind : Option EntryKind) (now : Files) (op : CommitOperation)
      → Outcome files operation d b s before_kind now op
      → files (root ++ rest) ≡ none
      → now (root ++ rest) ≡ none
  Outcome-none before_kind now op (untouched u) absent =
      Like-none b d files now root rest from_b from_d u.like absent
  Outcome-none before_kind now op (backed set k) absent = Backed-none now op k absent
  Outcome-none before_kind now op (replaced set k) absent =
      Installed-none k.middle now true op k.installed
        (Backed-none k.middle k.middle_op k.backed absent)
  Outcome-none before_kind now op (added k) absent =
      Installed-none k.middle now false op k.installed
        (Like-none b d files k.middle root rest from_b from_d k.like absent)
