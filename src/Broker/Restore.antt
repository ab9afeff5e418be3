-- ===== src/Broker/Restore.antt =====
-- The loop of `restore` of src/agent_workspace_guard/broker.py.
pub mod Whole
pub mod TurnedBack
pub mod Concluded
use agent_workspace_guard.Base.{
  Bool, Option, none, some, List, [], ◌∷◌, Text, codes, Result, ok, err, stale_plan,
  integrity_error,
}
use agent_workspace_guard.Paths.{FilePath, parse, safe_join}
use agent_workspace_guard.Models.CommitOperation.{CommitOperation}
use agent_workspace_guard.FileSystem.{Files, World, ◌>>=◌, ◌>>◌, lift, when, other_call}
use agent_workspace_guard.Broker.Apply.{Move, set_phase, require, Progress, start, push_operation}
use agent_workspace_guard.Broker.Rollback.{displace, put_back}

-- `backup is None or not os.path.lexists(backup)`, or the backup is moved back.
abbrev pub restore_backup : FilePath → Option Text → Move (Unit {0})
restore_backup destination none = lift (err integrity_error)
restore_backup destination (some backup) = do
  require (parse backup) integrity_error
  put_back (parse backup) destination
  other_call

-- The moves of one operation of `restore`.
unfoldable pub restore_parts :
    FilePath → FilePath → Text → Bool → Bool → Option Text → Move (Unit {0})
restore_parts destination restored_new_root path installed backup_moved backup_path = do
  when installed
      (do require destination stale_plan; displace destination restored_new_root path; other_call)
  when backup_moved (restore_backup destination backup_path)
  set_phase (codes "restored")

-- The body of the loop of `restore`.
unfoldable pub restore_operation : FilePath → FilePath → CommitOperation → Move (Unit {0})
restore_operation workspace restored_new_root operation = do
  destination ← lift (safe_join workspace operation.path)
  restore_parts destination restored_new_root operation.path operation.installed
      operation.backup_moved operation.backup_path

abbrev pub restored_next : Progress → Result (Unit {0}) × World CommitOperation → Progress
restored_next later (ok u, w) = record later {
  operations = w.memory ∷ later.operations;
  files = w.files;
  faults = w.faults;
}
restored_next later (err e, w) = record later {
  operations = w.memory ∷ later.operations;
  files = w.files;
  faults = w.faults;
  failure = some e;
}

-- The loop over the reversed operations, which the first exception leaves.
unfoldable pub restore_operations :
    FilePath → FilePath → List CommitOperation → Files → List Bool → Progress
unfolding restore_operation
restore_operations workspace restored_new_root [] files faults = record {
  operations = [];
  files = files;
  faults = faults;
  failure = none;
}
restore_operations workspace restored_new_root (operation ∷ operations) files faults =
    let later = restore_operations workspace restored_new_root operations files faults in
    elim later.failure [
      | none ↦ restored_next later (
          restore_operation workspace restored_new_root operation
            (start operation later.files later.faults))
      | some e ↦ push_operation operation later
    ]
