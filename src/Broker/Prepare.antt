-- ===== src/Broker/Prepare.antt =====
-- The operations that `commit` of src/agent_workspace_guard/broker.py prepares from the changes of a
-- plan. The copy of a payload writes below the apply root alone; it may raise.
use agent_workspace_guard.Base.{
  false, Option, none, some, List, [], ◌∷◌, Text, codes, Result, ok, ◌>>=◌, ◌>>◌,
}
use agent_workspace_guard.Paths.{FilePath, render, safe_join}
use agent_workspace_guard.Models.Enums.{EntryKind}
use agent_workspace_guard.Models.ManifestEntry.{ManifestEntry}
use agent_workspace_guard.Models.Change.{Change}
use agent_workspace_guard.Models.CommitOperation.{CommitOperation}

-- `entry.kind if entry else None`
abbrev pub kind_of : Option ManifestEntry → Option EntryKind
kind_of none = none
kind_of (some entry) = some entry.kind

module _ (worktree apply_root quarantine_root : FilePath)
    (copy_entry : FilePath → FilePath → Result (Unit {0})) where
  abbrev pub stage_payload : Text → Option ManifestEntry → Result (Unit {0})
  stage_payload path none = ok tt
  stage_payload path (some after) = do
    source ← safe_join worktree path
    destination ← safe_join apply_root path
    copy_entry source destination

  abbrev pub backup_path_of : Text → Option ManifestEntry → Result (Option Text)
  backup_path_of path none = ok none
  backup_path_of path (some before) = do
    backup ← safe_join quarantine_root path
    ok (some (render backup))

  unfoldable pub prepare_operation : Change → Result CommitOperation
  prepare_operation change = do
    stage_payload change.path change.after
    backup_path ← backup_path_of change.path change.before
    ok (record {
      path = change.path;
      change_kind = change.kind;
      before_kind = kind_of change.before;
      after_kind = kind_of change.after;
      backup_path = backup_path;
      installed = false;
      backup_moved = false;
      phase = codes "pending";
    })

  unfoldable pub prepare_operations : List Change → Result (List CommitOperation)
  unfolding prepare_operation
  prepare_operations [] = ok []
  prepare_operations (change ∷ roots) = do
    operation ← prepare_operation change
    operations ← prepare_operations roots
    ok (operation ∷ operations)
