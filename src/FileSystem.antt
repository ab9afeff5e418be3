-- ===== src/FileSystem.antt =====
-- The operating system's files, as far as the broker changes them. The files are a function from
-- paths to what lies there. A call raises if the schedule of faults says so (a missing permission, a
-- full disk, a directory that is not empty), and then has no effect; an empty schedule has no faults.
pub mod Moves
pub mod Near
pub mod Triples
use agent_workspace_guard.Base.{
  ◌≡◌, ℕ, ◌-◌, Bool, true, false, not, ◌||◌, Option, none, some, List, [], ◌∷◌, ◌++◌, length, Text,
  ◌==◌, nat_eq, list_eq, drop, starts_with, if◌then◌else◌, ℤ, pos, Result, ok, err, Error, builtin,
}
use agent_workspace_guard.Paths.{FilePath, parent}
use agent_workspace_guard.Models.Enums.{EntryKind, directory}

-- What lies at one path, without what lies below it. A symlink holds its target.
pub record Node : Type 0 where
  pub kind : EntryKind
  pub mode : ℤ
  pub content : List ℕ

abbrev pub Files : Type 0
Files = FilePath → Option Node

-- `os.path.lexists`
abbrev pub lexists : FilePath → Files → Bool
lexists path files = elim (files path) [ none ↦ false | some node ↦ true ]

abbrev pub new_directory : Node
new_directory = record { kind = directory; mode = pos 0o755; content = [] }

-- What follows the first parts of a path.
unfoldable pub skip : FilePath → FilePath → FilePath
skip [] path = path
skip (part ∷ parts) [] = []
skip (part ∷ parts) (first ∷ path) = skip parts path

-- The effect of `os.rename`: the tree at `source` lies at `target`, in place of what was there.
unfoldable pub moved : FilePath → FilePath → Files → Files
unfolding skip starts_with list_eq nat_eq
moved source target files path =
    if starts_with path target
    then files (source ++ skip target path)
    else if starts_with path source
    then none
    else files path

-- The effect of `Path.mkdir(parents=True, exist_ok=True)`: a directory wherever an ancestor is missing.
unfoldable pub grown : FilePath → Files → Files
unfolding starts_with list_eq nat_eq
grown folder files path = elim (files path) [
  | none ↦ if starts_with folder path then some new_directory else none
  | some node ↦ some node
]

abbrev pub private_directory : Node
private_directory = record { kind = directory; mode = pos 0o700; content = [] }

-- The effect of `Path.mkdir(mode=0o700)`.
unfoldable pub placed : FilePath → Files → Files
unfolding list_eq nat_eq
placed folder files path = if path == folder then some private_directory else files path

-- The files, the faults that are to come, and what the program holds in its variables.
pub record World (M : Type 0) : Type 0 where
  pub files : Files
  pub faults : List Bool
  pub memory : M

-- A computation that changes the world, also when it raises.
abbrev pub Action : Type 0 → Type 0 → Type 0
Action M A = World M → Result A × World M

abbrev pub next_fault : List Bool → Bool × List Bool
next_fault [] = (false, [])
next_fault (fault ∷ faults) = (fault, faults)

module _ {M : Type 0} where
  abbrev pub continue : {A B : Type 0} → Result A × World M → (A → Action M B) → Result B × World M
  continue (ok a, w) rest = rest a w
  continue (err e, w) rest = (err e, w)

  infixl 5 ◌>>=◌
  abbrev pub ◌>>=◌ : {A B : Type 0} → Action M A → (A → Action M B) → Action M B
  ◌>>=◌ m rest w = continue (m w) rest

  infixl 5 ◌>>◌
  abbrev pub ◌>>◌ : {B : Type 0} → Action M (Unit {0}) → Action M B → Action M B
  m >> rest = m >>= λ _. rest

  -- A computation that leaves the world alone.
  abbrev pub lift : {A : Type 0} → Result A → Action M A
  lift r w = (r, w)

  abbrev pub remember : (M → M) → Action M (Unit {0})
  remember change w = (ok tt, record w { memory = change w.memory })

  abbrev pub when : Bool → Action M (Unit {0}) → Action M (Unit {0})
  when test action w = if test then action w else (ok tt, w)

  abbrev pub call_with : Bool → (Files → Files) → World M → Result (Unit {0}) × World M
  call_with true effect w = (err builtin, w)
  call_with false effect w = (ok tt, record w { files = effect w.files })

  -- One system call with an effect on the files.
  unfoldable pub call : (Files → Files) → Action M (Unit {0})
  call effect w =
      call_with (next_fault w.faults).0 effect (record w { faults = (next_fault w.faults).1 })

  -- A call that writes elsewhere, or nothing: it may only raise.
  abbrev pub other_call : Action M (Unit {0})
  other_call = call (λ files. files)

  unfoldable pub rename : FilePath → FilePath → Action M (Unit {0})
  unfolding call moved
  rename source target w =
      if lexists source w.files then call (moved source target) w else (err builtin, w)

  unfoldable pub mkdir : FilePath → Action M (Unit {0})
  unfolding call grown
  mkdir folder = call (grown folder)

  -- `Path.mkdir(mode=0o700)`, which raises if the path is there or its parent is not.
  unfoldable pub make_directory : FilePath → Action M (Unit {0})
  unfolding call placed parent
  make_directory folder w =
      if lexists folder w.files || not (lexists (parent folder) w.files)
      then (err builtin, w)
      else call (placed folder) w

  -- `Path.mkdir(parents=True, mode=0o700)`
  unfoldable pub make_directories : FilePath → Action M (Unit {0})
  unfolding call placed grown parent
  make_directories folder w =
      if lexists folder w.files
      then (err builtin, w)
      else call (λ files. placed folder (grown (parent folder) files)) w
