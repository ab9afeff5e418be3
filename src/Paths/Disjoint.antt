-- ===== src/Paths/Disjoint.antt =====
-- `assert_disjoint` and the tests of util.py that keep the broker's trees apart from the workspace.
use agent_workspace_guard.Base.{
  ◌≡◌, true, false, ◌||◌, [], ◌∷◌, list_eq, nat_eq, starts_with, arith, ok,
}
use agent_workspace_guard.Paths.{FilePath, is_relative_to, assert_disjoint}

-- Two prefixes of one path are comparable.
comparable :
    (path left right : FilePath)
    → starts_with path left ≡ true
    → starts_with path right ≡ true
    → (starts_with left right || starts_with right left) ≡ true
unfolding starts_with
comparable path [] [] h k = ground arith
comparable path [] (r ∷ right) h k = ground arith
comparable path (l ∷ left) [] h k = ground arith
comparable [] (l ∷ left) (r ∷ right) h k = cc
comparable (p ∷ path) (l ∷ left) (r ∷ right) h k = ground (arith, comparable path left right)

-- Once the check has passed, no path lies in both trees.
pub assert_disjoint_sound :
    (left right path : FilePath)
    → assert_disjoint left right ≡ ok tt
    → is_relative_to path left ≡ true
    → is_relative_to path right ≡ false
unfolding assert_disjoint is_relative_to
assert_disjoint_sound left right path h k = ground (arith, comparable path left right)
