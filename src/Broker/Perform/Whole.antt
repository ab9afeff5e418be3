-- ===== src/Broker/Perform/Whole.antt =====
-- `commit` of src/agent_workspace_guard/broker.py as a whole: its checks, its lock and its changes.
use agent_workspace_guard.Base.{ℕ, ◌∷◌, ◌++◌, List, [], Text, codes, list_eq, nat_eq, ℤ, Result}
use agent_workspace_guard.Paths.{FilePath, parse, render}
use agent_workspace_guard.Host.{CaseTables, Floats}
use agent_workspace_guard.Json.Values.{Json}
use agent_workspace_guard.Json.Convert.{Builtins}
use agent_workspace_guard.Models.CommitPlan.{CommitPlan}
use agent_workspace_guard.Models.Transaction.{Transaction}
use agent_workspace_guard.Models.TreeManifest.{TreeManifest}
use agent_workspace_guard.Models.CommitRecord.{CommitRecord}
use agent_workspace_guard.Policy.Config.{GuardPolicy}
use agent_workspace_guard.FileSystem.{Files, ◌>>=◌, ◌>>◌, lift}
use agent_workspace_guard.Broker.Load.{load_baseline}
use agent_workspace_guard.Broker.Approval.{Approval}
use agent_workspace_guard.Broker.Commit.{View, authorize, check_result}
use agent_workspace_guard.Broker.Perform.{Job, perform}
use agent_workspace_guard.Broker.Held.{Step}
use agent_workspace_guard.Broker.Lock.{lock_path_of, with_workspace_lock}

-- What the commit finds and makes under the lock: the new identifier, the clock, and the roots.
module _ (py : Builtins) (sha256 hmac : List ℕ → Text) (state_root : FilePath)
    (read_json : FilePath → Result Json) (resolve : FilePath → FilePath) (cases : CaseTables)
    (floats : Floats) (policy : GuardPolicy floats) (digest_of : FilePath → Files → Result Text)
    (copy_entry : FilePath → FilePath → Result (Unit {0})) (copied : Files → Files) where
  abbrev pub job_of : Text → ℤ → CommitPlan → Transaction → TreeManifest → Job
  job_of commit_id created_at plan transaction baseline = record {
    commit_id = commit_id;
    created_at = created_at;
    workspace = parse transaction.workspace_root;
    worktree = parse transaction.worktree_root;
    quarantine_root = state_root ++ (codes "quarantine" ∷ commit_id ∷ []);
    apply_root = state_root ++ (codes "apply" ∷ commit_id ∷ []);
    plan = plan;
    baseline_digest = baseline.digest;
  }

  -- `commit`: the plan and its transaction, the lock, the checks under it, and the changes.
  unfoldable pub commit : View → Text → ℤ → Text → Approval → Step CommitRecord
  unfolding authorize load_baseline lock_path_of with_workspace_lock check_result perform
  commit view commit_id created_at plan_id approval = do
    (plan, transaction) ← lift (authorize py sha256 hmac state_root read_json view plan_id approval)
    baseline ← lift (load_baseline py sha256 hmac state_root read_json resolve transaction)
    lock_path ← lift (lock_path_of sha256 state_root (render (parse transaction.workspace_root)))
    with_workspace_lock lock_path (do
      lift (check_result sha256 cases floats policy view plan transaction baseline)
      perform hmac digest_of resolve copy_entry copied state_root
          (job_of commit_id created_at plan transaction baseline))
