-- ===== src/Policy/Symlink.antt =====
-- `_unsafe_symlink_reason` of src/agent_workspace_guard/policy.py: the lexical walk from a link to
-- its target.
pub mod Walk
use agent_workspace_guard.Base.{
  ◌≡◌, ℕ, Bool, true, false, not, ◌&&◌, ◌||◌, Option, none, some, List, [], ◌∷◌, ◌++◌, map, Text,
  codes, ◌==◌, nat_eq, list_eq, contains, starts_with, init, replace, if◌then◌else◌,
}
use agent_workspace_guard.Paths.{
  FilePath, slash, dot, dot_dot, root_part, parse, parent, has_drive, is_windows_absolute,
}
use agent_workspace_guard.Host.{CaseTables}

-- The loop over the components of the target, with the components reached so far. `none` is the
-- early return for a target above the workspace root.
unfoldable pub walk : FilePath → FilePath → Option FilePath
unfolding list_eq nat_eq
walk components [] = some components
walk components (part ∷ parts) =
    let stay = walk components parts in
    let up = walk (init components) parts in
    let down = walk (components ++ (part ∷ [])) parts in
    if part == [] || part == dot
    then stay
    else if part == dot_dot
    then (if components == [] then none else up)
    else down

module _ (cases : CaseTables) where
  unfoldable pub is_protected : List Text → FilePath → Bool
  unfolding list_eq nat_eq
  is_protected protected_top_level [] = false
  is_protected protected_top_level (top ∷ parts) =
      contains (map cases.casefold protected_top_level) (cases.casefold top)

  unfoldable pub reason_in : List Text → Option FilePath → Option Text
  unfolding is_protected
  reason_in protected_top_level none =
      some (codes "symlink target escapes above the workspace root")
  reason_in protected_top_level (some components) =
      if is_protected protected_top_level components
      then some (codes "symlink target enters protected broker or VCS metadata")
      else none

  unfoldable pub unsafe_symlink_reason : Text → Option Text → List Text → Option Text
  unfolding list_eq nat_eq
  unsafe_symlink_reason link_path none protected_top_level =
      some (codes "empty or malformed symlink targets are not commit-capable")
  unsafe_symlink_reason link_path (some target) protected_top_level =
      if target == [] || contains target 0
      then some (codes "empty or malformed symlink targets are not commit-capable")
      else if (starts_with target root_part || starts_with target (b'\\' ∷ []))
          || is_windows_absolute target
          || has_drive target
      then some (codes "absolute, drive-qualified, and UNC symlink targets are denied")
      else reason_in protected_top_level
          (walk (parent (parse link_path)) (parse (replace b'\\' slash target)))
