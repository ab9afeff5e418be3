-- ===== src/Broker/Rollback/Conclude.antt =====
-- `_rollback_failed_commit` of src/agent_workspace_guard/broker.py: its loop, and what follows it.
use agent_workspace_guard.Base.{
  Bool, ◌==◌, list_eq, nat_eq, if◌then◌else◌, Option, none, some, List, [], ◌∷◌, ◌++◌, Text, codes,
  Result, ok, err, Error, builtin, integrity_error, refuse, ◌>>=◌, ◌>>◌,
}
use agent_workspace_guard.Paths.{FilePath}
use agent_workspace_guard.Models.CommitOperation.{CommitOperation}
use agent_workspace_guard.FileSystem.{Files, next_fault}
use agent_workspace_guard.Broker.Rollback.{Rollback, roll_back_operations}

-- `record.status`
abbrev pub status_of : List Text → Text
status_of [] = codes "rolled_back"
status_of (error ∷ errors) = codes "rollback_failed"

-- The errors after the scan of the workspace; `found` is the digest of that scan.
unfoldable pub check_restored : Result Text → Text → List Text → Result (List Text)
unfolding list_eq nat_eq
check_restored found baseline_digest [] = do
  restored ← found
  ok (
      if restored == baseline_digest
      then []
      else codes "workspace digest differs from baseline after rollback" ∷ [])
check_restored found baseline_digest (error ∷ errors) = ok (error ∷ errors)

-- `if rollback_errors: raise IntegrityError`
abbrev pub raise_if_any : List Text → Result (Unit {0})
raise_if_any [] = ok tt
raise_if_any (error ∷ errors) = err integrity_error

-- What follows the loop. The record is saved and the event is appended, which may raise; `digest_of`
-- is what a scan of the workspace finds.
unfoldable pub conclude : (Files → Result Text) → Text → Rollback → Result (Unit {0})
conclude digest_of baseline_digest r = do
  refuse (next_fault r.faults).0 builtin
  errors ← check_restored (digest_of r.files) baseline_digest r.errors
  refuse (next_fault (next_fault r.faults).1).0 builtin
  raise_if_any errors

abbrev pub concluded : Option Error → Result (Unit {0}) → Result (Unit {0})
concluded none conclusion = conclusion
concluded (some e) conclusion = err e

-- The status that the record is left with, and whether the rollback raises, in front of what its loop
-- leaves.
unfoldable pub rollback_failed_commit :
    (Files → Result Text)
    → FilePath
    → FilePath
    → Text
    → List CommitOperation
    → Files
    → List Bool
    → Text × Result (Unit {0}) × Rollback
unfolding roll_back_operations conclude
rollback_failed_commit digest_of workspace quarantine_root baseline_digest operations files faults =
    let failed_new_root = quarantine_root ++ (codes "_failed_new" ∷ []) in
    let r = roll_back_operations workspace failed_new_root operations files faults in
    (status_of r.errors, concluded r.failure (conclude digest_of baseline_digest r), r)
