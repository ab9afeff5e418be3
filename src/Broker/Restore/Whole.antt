-- ===== src/Broker/Restore/Whole.antt =====
-- `restore` of src/agent_workspace_guard/broker.py as a whole: its checks, its lock, its loop, and the
-- save that ends it.
use agent_workspace_guard.Base.{
  ℕ, Bool, not, ◌&&◌, List, Text, codes, ◌==◌, list_eq, nat_eq, Result, ok, guard_error,
  integrity_error, stale_plan, refuse, ◌++◌, ◌∷◌, [],
}
use agent_workspace_guard.Paths.{FilePath, parse, render}
use agent_workspace_guard.Json.Values.{Json}
use agent_workspace_guard.Json.Convert.{Builtins}
use agent_workspace_guard.Models.Enums.{committed, plan_state_eq}
use agent_workspace_guard.Models.CommitPlan.{CommitPlan}
use agent_workspace_guard.Models.CommitRecord.{CommitRecord}
use agent_workspace_guard.Signer.{sign}
use agent_workspace_guard.FileSystem.{Files, ◌>>=◌, ◌>>◌, lift, remember, other_call}
use agent_workspace_guard.Broker.Load.{load_commit, load_plan, commit_payload}
use agent_workspace_guard.Broker.Restore.{restore_operations}
use agent_workspace_guard.Broker.Lock.{with_workspace_lock, lock_path_of}
use agent_workspace_guard.Broker.Held.{Held, Step, save, set_status, sign_with, after_loop, expect}

-- The record belongs to its plan.
unfoldable pub matches_plan : CommitRecord → CommitPlan → Bool
unfolding list_eq nat_eq
matches_plan stored plan =
    stored.transaction_id == plan.transaction_id
    && stored.workspace_root == plan.workspace_root
    && stored.before_digest == plan.baseline_digest
    && stored.after_digest == plan.staged_digest

-- The record in hand.
abbrev pub with_status : Text → CommitRecord → Held → CommitRecord
with_status status stored held = record stored {
  operations = held.operations;
  status = status;
  signature = held.signature;
}

module _ (hmac : List ℕ → Text) (digest_of : FilePath → Files → Result Text)
    (stored : CommitRecord) where
  abbrev pub restored_new_root : FilePath
  restored_new_root = parse stored.quarantine_root ++ (codes "_restore_current" ∷ [])

  unfoldable pub restore_all : Step (Unit {0})
  unfolding restore_operations parse list_eq nat_eq
  restore_all w =
      after_loop
        (restore_operations (parse stored.workspace_root) restored_new_root w.memory.operations
          w.files w.faults)
        w

  -- The block under the lock. The last call appends the event.
  unfoldable pub restore_files : Step CommitRecord
  unfolding restore_all save sign list_eq nat_eq parse
  restore_files = do
    expect digest_of (parse stored.workspace_root) stored.after_digest stale_plan
    remember (λ held. record held { operations = stored.operations })
    restore_all
    expect digest_of (parse stored.workspace_root) stored.before_digest integrity_error
    (λ w. sign_with (sign hmac (commit_payload (with_status (codes "restored") stored w.memory))) w)
    save (set_status (codes "restored"))
    other_call
    (λ w. (ok (with_status (codes "restored") stored w.memory), w))

module _ (py : Builtins) (sha256 hmac : List ℕ → Text) (state_root : FilePath)
    (read_json : FilePath → Result Json) (digest_of : FilePath → Files → Result Text) where
  unfoldable pub restore : Text → Step CommitRecord
  unfolding load_commit load_plan plan_state_eq matches_plan list_eq nat_eq lock_path_of
      with_workspace_lock restore_files
  restore commit_id = do
    stored ← lift (load_commit py sha256 hmac state_root read_json commit_id)
    lift (refuse (not (stored.status == codes "committed")) guard_error)
    plan ← lift (load_plan py sha256 hmac state_root read_json stored.plan_id)
    lift (refuse (not (plan.state == committed)) integrity_error)
    lift (refuse (not (matches_plan stored plan)) integrity_error)
    lock_path ← lift (lock_path_of sha256 state_root (render (parse stored.workspace_root)))
    with_workspace_lock lock_path (restore_files hmac digest_of stored)
