-- ===== src/Broker/Apply.antt =====
-- The loop of `commit` of src/agent_workspace_guard/broker.py that moves files. The files are those of
-- the workspace, of the payloads and of the quarantine; saving a record writes elsewhere, so it is a
-- call that may only raise.
pub mod Ends
pub mod Outcomes
pub mod Parts
pub mod Back
pub mod Places
pub mod Undo
pub mod Elsewhere
pub mod Backwards
pub mod RolledBack
pub mod Restored
pub mod Layout
pub mod Prepared
use agent_workspace_guard.Base.{
  ◌≡◌, ℕ, Bool, true, false, not, ◌&&◌, Option, none, some, List, [], ◌∷◌, ◌++◌, Text, codes,
  Result, ok, err, Error, builtin, stale_plan, integrity_error, refuse, reverse, if◌then◌else◌,
}
use agent_workspace_guard.Paths.{FilePath, parse, parent, safe_join}
use agent_workspace_guard.Models.Enums.{EntryKind}
use agent_workspace_guard.Models.CommitOperation.{CommitOperation}
use agent_workspace_guard.FileSystem.{
  Files, lexists, World, Action, ◌>>=◌, ◌>>◌, lift, remember, when, other_call, rename, mkdir,
}

-- The operation in hand is what the program holds.
abbrev pub Move : Type 0 → Type 0
Move = Action CommitOperation

abbrev pub set_phase : Text → Move (Unit {0})
set_phase phase = remember (λ operation. record operation { phase = phase })

abbrev pub is_set : Option EntryKind → Bool
is_set none = false
is_set (some kind) = true

-- `if not os.path.lexists(path): raise error`
abbrev pub require : FilePath → Error → Move (Unit {0})
require path error w = (refuse (not (lexists path w.files)) error, w)

-- An existing target goes to the quarantine.
unfoldable pub back_up : FilePath → FilePath → Move (Unit {0})
unfolding mkdir rename
back_up destination backup = do
  require destination stale_plan
  mkdir (parent backup)
  set_phase (codes "moving_backup")
  other_call
  rename destination backup
  remember (λ operation. record operation { backup_moved = true })
  set_phase (codes "backup_moved")
  other_call
  other_call
  other_call

-- The payload goes to the workspace.
unfoldable pub install : FilePath → FilePath → Move (Unit {0})
unfolding mkdir rename
install staged_path destination = do
  mkdir (parent destination)
  set_phase (codes "installing")
  other_call
  rename staged_path destination
  remember (λ operation. record operation { installed = true })
  set_phase (codes "installed")
  other_call
  other_call

-- `assert backup is not None`
abbrev pub back_up_to : FilePath → Option Text → Move (Unit {0})
back_up_to destination none = lift (err builtin)
back_up_to destination (some backup) = back_up destination (parse backup)

-- The two halves of an operation.
unfoldable pub apply_parts :
    FilePath → FilePath → Option EntryKind → Option Text → Option EntryKind → Move (Unit {0})
unfolding back_up install
apply_parts destination staged_path before_kind backup_path after_kind = do
  when (is_set before_kind) (back_up_to destination backup_path)
  when (is_set after_kind) (install staged_path destination)

-- The body of the loop of `commit`.
unfoldable pub apply_operation : FilePath → FilePath → CommitOperation → Move (Unit {0})
unfolding apply_parts safe_join
apply_operation workspace apply_root operation = do
  destination ← lift (safe_join workspace operation.path)
  staged_path ← lift (safe_join apply_root operation.path)
  apply_parts destination staged_path operation.before_kind operation.backup_path
      operation.after_kind

-- What a loop over the operations leaves: the record's operations, the files, the faults that are
-- left, and the exception that ended it.
pub record Progress : Type 0 where
  pub operations : List CommitOperation
  pub files : Files
  pub faults : List Bool
  pub failure : Option Error

abbrev pub start : CommitOperation → Files → List Bool → World CommitOperation
start operation files faults = record { files = files; faults = faults; memory = operation }

abbrev pub push_operation : CommitOperation → Progress → Progress
push_operation operation p = record p { operations = operation ∷ p.operations }

-- After one operation: on to the next, or out of the loop.
abbrev pub applied_next :
    List CommitOperation
    → (Files → List Bool → Progress)
    → Result (Unit {0}) × World CommitOperation
    → Progress
applied_next operations rest (ok u, w) = push_operation w.memory (rest w.files w.faults)
applied_next operations rest (err e, w) = record {
  operations = w.memory ∷ operations;
  files = w.files;
  faults = w.faults;
  failure = some e;
}

unfoldable pub apply_operations :
    FilePath → FilePath → List CommitOperation → Files → List Bool → Progress
unfolding apply_operation
apply_operations workspace apply_root [] files faults = record {
  operations = [];
  files = files;
  faults = faults;
  failure = none;
}
apply_operations workspace apply_root (operation ∷ operations) files faults =
    applied_next operations (apply_operations workspace apply_root operations)
      (apply_operation workspace apply_root operation (start operation files faults))
