-- ===== src/Broker/Perform.antt =====
-- `commit` of src/agent_workspace_guard/broker.py, from its checks to the record that it returns: the
-- payloads, the loop with its rollback, and the saves that end it.
pub mod States
pub mod Staged
pub mod Carried
pub mod Ordered
pub mod Whole
pub mod Admitted
use agent_workspace_guard.Base.{
  ℕ, Bool, true, false, not, ◌∷◌, ◌++◌, take, Option, none, some, List, [], map, Text, codes, ◌==◌,
  list_eq, nat_eq, ℤ, if◌then◌else◌, Result, ok, err, Error, integrity_error, stale_plan, refuse,
}
use agent_workspace_guard.Paths.{FilePath, parse, render}
use agent_workspace_guard.Host.{CaseTables, Floats}
use agent_workspace_guard.Json.Values.{Json, object, field, end, string}
use agent_workspace_guard.Json.Convert.{Builtins}
use agent_workspace_guard.Models.Enums.{PlanState, TransactionState}
use agent_workspace_guard.Models.CommitPlan.{CommitPlan}
use agent_workspace_guard.Models.Transaction.{Transaction}
use agent_workspace_guard.Models.TreeManifest.{TreeManifest}
use agent_workspace_guard.Models.CommitOperation.{CommitOperation}
use agent_workspace_guard.Models.CommitRecord.{CommitRecord}
use agent_workspace_guard.Manifest.{operation_roots, digest_json}
use agent_workspace_guard.Policy.Config.{GuardPolicy}
use agent_workspace_guard.Signer.{sign}
use agent_workspace_guard.FileSystem.{
  Files, lexists, next_fault, World, Action, ◌>>=◌, ◌>>◌, lift, remember, when, make_directory,
  other_call,
}
use agent_workspace_guard.Broker.Load.{load_baseline, commit_payload}
use agent_workspace_guard.Broker.Approval.{Approval}
use agent_workspace_guard.Broker.Commit.{View, authorize, check_result}
use agent_workspace_guard.Broker.Prepare.{prepare_operations}
use agent_workspace_guard.Broker.Apply.{Progress, apply_operations}
use agent_workspace_guard.Broker.Rollback.Conclude.{rollback_failed_commit}
use agent_workspace_guard.Broker.Held.{Held, Step, save, set_status, sign_with, after_loop, expect}
use agent_workspace_guard.Broker.Lock.{on_error, with_workspace_lock, remove_state_tree}

-- `operation.phase = "complete"`
abbrev pub complete : CommitOperation → CommitOperation
complete operation = record operation { phase = codes "complete" }

abbrev pub complete_all : Held → Held
complete_all held = record held { operations = map complete held.operations }

-- The variables of the commit under its lock.
pub record Job : Type 0 where
  pub commit_id : Text
  pub created_at : ℤ
  pub workspace : FilePath
  pub worktree : FilePath
  pub quarantine_root : FilePath
  pub apply_root : FilePath
  pub plan : CommitPlan
  pub baseline_digest : Text

-- `digest_of` is as in Held. `copied` is what the copies of the
-- payloads leave, and `copy_entry` tells whether one raises.
module _ (hmac : List ℕ → Text) (digest_of : FilePath → Files → Result Text)
    (resolve : FilePath → FilePath) (copy_entry : FilePath → FilePath → Result (Unit {0}))
    (copied : Files → Files) (state_root : FilePath) where
  abbrev pub copy_payloads : Step (Unit {0})
  copy_payloads w = (ok tt, record w { files = copied w.files })

  abbrev pub remember_operations : List CommitOperation → Step (Unit {0})
  remember_operations operations = remember (λ held. record held { operations = operations })

  module _ (job : Job) where
    -- The record in hand.
    abbrev pub record_of : Text → Held → CommitRecord
    record_of status held = record {
      commit_id = job.commit_id;
      plan_id = job.plan.plan_id;
      transaction_id = job.plan.transaction_id;
      workspace_root = render job.workspace;
      quarantine_root = render job.quarantine_root;
      apply_root = render job.apply_root;
      operations = held.operations;
      before_digest = job.baseline_digest;
      after_digest = job.plan.staged_digest;
      created_at = job.created_at;
      status = status;
      signature = held.signature;
    }

    -- `_save_commit`, with a status.
    unfoldable pub save_commit : Text → Step (Unit {0})
    unfolding save sign
    save_commit status = do
      (λ w. sign_with (sign hmac (commit_payload (record_of status w.memory))) w)
      save (set_status status)

    -- The `try` block, up to the record.
    unfoldable pub stage : Step (Unit {0})
    unfolding prepare_operations operation_roots expect
    stage = do
      copy_payloads
      operations ← lift (
          prepare_operations job.worktree job.apply_root job.quarantine_root copy_entry
            (operation_roots job.plan.changes))
      expect digest_of job.worktree job.plan.staged_digest stale_plan
      remember_operations operations

    -- The handler of an exception before the record is there.
    unfoldable pub clean_up : Step (Unit {0})
    unfolding remove_state_tree
    clean_up = do
      (λ w.
          when (lexists job.apply_root w.files)
            (remove_state_tree resolve state_root job.apply_root) w)
      (λ w.
          when (lexists job.quarantine_root w.files)
            (remove_state_tree resolve state_root job.quarantine_root) w)

    unfoldable pub apply_all : Step (Unit {0})
    unfolding apply_operations
    apply_all w =
        after_loop
          (apply_operations job.workspace job.apply_root w.memory.operations w.files w.faults) w

    -- The rest of the `try` block.
    unfoldable pub carry_out : Step (Unit {0})
    unfolding apply_all save_commit expect
    carry_out = do
      save_commit (codes "prepared")
      apply_all
      expect digest_of job.workspace job.plan.staged_digest integrity_error
      remember complete_all
      save_commit (codes "committed")

    -- What the saved record says after the rollback: an exception that leaves its loop comes before the
    -- save, and a save that raises leaves the old status.
    abbrev pub stored_status : Option Error → Bool → Option Text → Text → Option Text
    stored_status (some e) fault before status = before
    stored_status none true before status = before
    stored_status none false before status = some status

    -- The faults that the save and the event leave.
    abbrev pub faults_after : Option Error → List Bool → List Bool
    faults_after (some e) faults = faults
    faults_after none faults = (next_fault (next_fault faults).1).1

    -- The handler of an exception after that.
    unfoldable pub roll_back : Step (Unit {0})
    unfolding rollback_failed_commit
    roll_back w =
        let (status, r, left) =
          rollback_failed_commit (digest_of job.workspace) job.workspace job.quarantine_root
            job.baseline_digest w.memory.operations w.files w.faults in
        (
          r,
          record {
            files = left.files;
            faults = faults_after left.failure left.faults;
            memory = record w.memory {
              operations = left.operations;
              commit_status =
                  stored_status left.failure (next_fault left.faults).0 w.memory.commit_status
                    status;
            };
          },
        )

    abbrev pub remove_payloads : Step (Unit {0})
    remove_payloads w =
        when (lexists job.apply_root w.files) (remove_state_tree resolve state_root job.apply_root)
          w

    abbrev pub returned : Step CommitRecord
    returned w = (ok (record_of (codes "committed") w.memory), w)

    abbrev pub commit_plan : Held → Held
    commit_plan held = record held { plan_state = PlanState.committed }

    abbrev pub commit_transaction : Held → Held
    commit_transaction held = record held { transaction_state = TransactionState.committed }

    -- What follows the `try` statement. The last call appends the event.
    unfoldable pub finish : Step CommitRecord
    unfolding remove_state_tree save
    finish = do remove_payloads; save commit_plan; save commit_transaction; other_call; returned

    -- From the new directories to the end.
    unfoldable pub perform : Step CommitRecord
    unfolding make_directory stage clean_up carry_out roll_back finish
    perform = do
      make_directory job.quarantine_root
      make_directory job.apply_root
      on_error stage clean_up
      on_error carry_out roll_back
      finish
