-- ===== src/Paths.antt =====
-- Paths as `pathlib` reads them on a POSIX host, and the path checks of
-- src/agent_workspace_guard/util.py. A path is the tuple of its `parts`: the names, with the root
-- "/" or "//" in front if it is absolute. The Windows tests are those of Python 3.12 and later.
pub mod Names
pub mod Safe
pub mod Disjoint
use agent_workspace_guard.Base.{
  ℕ, ◌-◌, Bool, true, false, not, ◌&&◌, ◌||◌, Option, none, some, List, [], ◌∷◌, ◌++◌, Text, codes,
  ◌==◌, contains, nat_eq, list_eq, starts_with, filter, any, init, last_or, length, split, join,
  rfind, drop, ltb, if◌then◌else◌, Result, ok, unsafe_path, refuse, ◌>>=◌, ◌>>◌,
}

abbrev pub FilePath : Type 0
FilePath = List Text

abbrev pub slash : ℕ
slash = b'/'

abbrev pub dot : Text
dot = b'.' ∷ []

abbrev pub dot_dot : Text
dot_dot = b'.' ∷ b'.' ∷ []

abbrev pub root_part : Text
root_part = slash ∷ []

-- Exactly two leading slashes are a root of their own.
abbrev pub double_root : Text
double_root = slash ∷ slash ∷ []

-- What a path keeps of the pieces between slashes.
abbrev pub is_kept : Text → Bool
is_kept part = not (part == [] || part == dot)

-- `Path(text).parts`
unfoldable pub parse : Text → FilePath
unfolding split filter starts_with nat_eq list_eq
parse text =
    let names = filter is_kept (split slash text) in
    if starts_with text (codes "///")
    then root_part ∷ names
    else if starts_with text double_root
    then double_root ∷ names
    else if starts_with text root_part
    then root_part ∷ names
    else names

unfoldable pub is_absolute : FilePath → Bool
unfolding nat_eq list_eq
is_absolute [] = false
is_absolute (part ∷ parts) = part == root_part || part == double_root

-- `str(path)` and `path.as_posix()`
unfoldable pub render : FilePath → Text
unfolding is_absolute join
render [] = dot
render (part ∷ parts) =
    if is_absolute (part ∷ parts)
    then part ++ join root_part parts
    else join root_part (part ∷ parts)

-- `root / path`, `root.joinpath(path)`
unfoldable pub join_path : FilePath → FilePath → FilePath
unfolding is_absolute
join_path root path = if is_absolute path then path else root ++ path

-- `path.name`: the root is no name.
unfoldable pub name : FilePath → Text
unfolding is_absolute
name path = if is_absolute path && length path == 1 then [] else last_or [] path

-- `path.suffix`
unfoldable pub suffix : FilePath → Text
unfolding name rfind drop
suffix path = elim (rfind b'.' (name path)) [
  | none ↦ []
  | some i ↦ if ltb 0 i && ltb i (length (name path) - 1) then drop i (name path) else []
]

-- `path.parent`
unfoldable pub parent : FilePath → FilePath
unfolding is_absolute
parent path = if is_absolute path && length path == 1 then path else init path

unfoldable pub is_relative_to : FilePath → FilePath → Bool
unfolding is_absolute starts_with
is_relative_to path root =
    starts_with path root && (if is_absolute path then is_absolute root else not (is_absolute root))

unfoldable pub assert_disjoint : FilePath → FilePath → Result (Unit {0})
unfolding is_relative_to
assert_disjoint left right =
    refuse (left == right || is_relative_to left right || is_relative_to right left) unsafe_path

-- `PureWindowsPath(text).drive` is not empty. Asked only of texts with no leading separator.
unfoldable pub has_drive : Text → Bool
has_drive [] = false
has_drive (c ∷ []) = false
has_drive (c ∷ d ∷ text) = d == b':'

-- `PureWindowsPath(text).is_absolute()`, under the same condition.
unfoldable pub is_windows_absolute : Text → Bool
is_windows_absolute [] = false
is_windows_absolute (c ∷ []) = false
is_windows_absolute (c ∷ d ∷ []) = false
is_windows_absolute (c ∷ d ∷ e ∷ text) = d == b':' && (e == slash || e == b'\\')

unfoldable pub is_bad_part : Text → Bool
is_bad_part part = part == [] || part == dot || part == dot_dot

unfoldable pub validate_relative_path : Text → Result FilePath
unfolding parse is_absolute has_drive is_windows_absolute is_bad_part starts_with nat_eq list_eq
validate_relative_path value = do
  refuse (value == [] || contains value 0) unsafe_path
  refuse
      (starts_with value root_part
        || starts_with value (codes "\\")
        || starts_with value double_root)
      unsafe_path
  refuse (is_windows_absolute value || has_drive value) unsafe_path
  let candidate = parse value
  refuse (is_absolute candidate) unsafe_path
  refuse (any is_bad_part candidate) unsafe_path
  ok candidate

unfoldable pub safe_join : FilePath → Text → Result FilePath
unfolding validate_relative_path join_path is_relative_to
safe_join root relative = do
  path ← validate_relative_path relative
  let candidate = join_path root path
  refuse (candidate == root || not (is_relative_to candidate root)) unsafe_path
  ok candidate
