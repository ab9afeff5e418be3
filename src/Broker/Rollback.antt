-- ===== src/Broker/Rollback.antt =====
-- `_rollback_failed_commit` of src/agent_workspace_guard/broker.py: its loop.
pub mod Conclude
pub mod Effects
pub mod Undone
pub mod Complete
use agent_workspace_guard.Base.{
  Bool, ◌&&◌, Option, none, some, List, [], ◌∷◌, ◌++◌, Text, codes, Result, ok, err, Error, builtin,
}
use agent_workspace_guard.Paths.{FilePath, parse, parent, safe_join}
use agent_workspace_guard.Models.CommitOperation.{CommitOperation}
use agent_workspace_guard.FileSystem.{Files, lexists, World, ◌>>=◌, ◌>>◌, lift, when, rename, mkdir}
use agent_workspace_guard.Broker.Apply.{Move, set_phase, start}

-- The first half of a step back: what was installed is moved aside.
unfoldable pub displace : FilePath → FilePath → Text → Move (Unit {0})
unfolding mkdir rename safe_join
displace destination aside_root path = do
  displaced ← lift (safe_join aside_root path)
  mkdir (parent displaced)
  rename destination displaced

-- The second half: the backup is moved back.
unfoldable pub put_back : FilePath → FilePath → Move (Unit {0})
unfolding mkdir rename
put_back backup destination = do mkdir (parent destination); rename backup destination

abbrev pub put_back_if_present : FilePath → Option Text → Move (Unit {0})
put_back_if_present destination none w = (ok tt, w)
put_back_if_present destination (some backup) w =
    when (lexists (parse backup) w.files) (put_back (parse backup) destination) w

-- The `try` body of the loop of `_rollback_failed_commit`.
unfoldable pub roll_back_operation : FilePath → FilePath → CommitOperation → Move (Unit {0})
unfolding displace put_back
roll_back_operation destination failed_new_root operation w =
    (when (operation.installed && lexists destination w.files)
          (displace destination failed_new_root operation.path)
        >> when operation.backup_moved (put_back_if_present destination operation.backup_path)
        >> set_phase (codes "rolled_back"))
      w

-- What the rollback leaves. `errors` are the paths whose step back raised an `OSError`.
pub record Rollback : Type 0 where
  pub operations : List CommitOperation
  pub files : Files
  pub faults : List Bool
  pub errors : List Text
  pub failure : Option Error

-- An `OSError` is noted; any other exception leaves the loop.
abbrev pub settle : Text → Rollback → Result (Unit {0}) × World CommitOperation → Rollback
settle path later (ok u, w) = record later {
  operations = w.memory ∷ later.operations;
  files = w.files;
  faults = w.faults;
}
settle path later (err builtin, w) = record later {
  operations = w.memory ∷ later.operations;
  files = w.files;
  faults = w.faults;
  errors = later.errors ++ (path ∷ []);
}
settle path later (err e, w) = record later {
  operations = w.memory ∷ later.operations;
  files = w.files;
  faults = w.faults;
  failure = some e;
}

unfoldable pub roll_back_next : FilePath → FilePath → CommitOperation → Rollback → Rollback
unfolding roll_back_operation safe_join
roll_back_next workspace failed_new_root operation later =
    elim (safe_join workspace operation.path) [
      | err e ↦ record later { operations = operation ∷ later.operations; failure = some e }
      | ok destination ↦ settle operation.path later (
          roll_back_operation destination failed_new_root operation
            (start operation later.files later.faults))
    ]

-- The loop over the reversed operations: those behind an operation come before it.
unfoldable pub roll_back_operations :
    FilePath → FilePath → List CommitOperation → Files → List Bool → Rollback
unfolding roll_back_next
roll_back_operations workspace failed_new_root [] files faults = record {
  operations = [];
  files = files;
  faults = faults;
  errors = [];
  failure = none;
}
roll_back_operations workspace failed_new_root (operation ∷ operations) files faults =
    let later = roll_back_operations workspace failed_new_root operations files faults in
    elim later.failure [
      | none ↦ roll_back_next workspace failed_new_root operation later
      | some e ↦ record later { operations = operation ∷ later.operations }
    ]
