-- ===== src/Broker/Plan.antt =====
-- `plan` of src/agent_workspace_guard/broker.py.
use agent_workspace_guard.Base.{
  ℕ, not, ◌||◌, List, [], ◌∷◌, Text, ◌==◌, nat_eq, list_eq, ℤ, ◌+ℤ◌, Result, ok, guard_error,
  stale_plan, refuse, ◌>>=◌, ◌>>◌,
}
use agent_workspace_guard.Paths.{FilePath}
use agent_workspace_guard.Host.{CaseTables, Floats}
use agent_workspace_guard.Json.Values.{Json, object, fields_of}
use agent_workspace_guard.Json.Convert.{Builtins}
use agent_workspace_guard.Models.Enums.{opened, planned, transaction_state_eq, pending}
use agent_workspace_guard.Models.Change.{Change}
use agent_workspace_guard.Models.TreeManifest.{TreeManifest}
use agent_workspace_guard.Models.Transaction.{Transaction}
use agent_workspace_guard.Models.CommitPlan
use agent_workspace_guard.Models.CommitPlan.{CommitPlan}
use agent_workspace_guard.Manifest.{diff_manifests, digest_json}
use agent_workspace_guard.Policy.Config.{GuardPolicy, fingerprint}
use agent_workspace_guard.Policy.Evaluate.{Evaluation, evaluate}
use agent_workspace_guard.Signer.{sign}
use agent_workspace_guard.Validate.{validate_ttl}
use agent_workspace_guard.Broker.Records.{max_plan_ttl_seconds, supported_version}
use agent_workspace_guard.Broker.Load.{
  plan_payload, load_transaction, load_baseline, save_plan, save_transaction,
}

-- The plan before its fingerprint and its signature.
unfoldable pub unsigned_plan :
    ℤ
    → ℤ
    → Text
    → Text
    → Transaction
    → TreeManifest
    → TreeManifest
    → List Change
    → Evaluation
    → CommitPlan
unfolding ◌+ℤ◌
unsigned_plan created_at ttl_seconds plan_id policy_digest transaction baseline staged changes
      (decision, findings, summary) =
    record {
      protocol_version = supported_version;
      plan_id = plan_id;
      transaction_id = transaction.transaction_id;
      task_id = transaction.task_id;
      workspace_root = transaction.workspace_root;
      baseline_digest = baseline.digest;
      staged_digest = staged.digest;
      policy_digest = policy_digest;
      changes = changes;
      findings = findings;
      decision = decision;
      fingerprint = [];
      created_at = created_at;
      expires_at = created_at +ℤ ttl_seconds;
      signature = [];
      state = pending;
      summary = summary;
    }

-- The fingerprint of the core, and the signature over it.
unfoldable pub seal_plan : (sha256 hmac : List ℕ → Text) → CommitPlan → Result CommitPlan
unfolding digest_json sign CommitPlan.core_dict CommitPlan.signing_dict
seal_plan sha256 hmac unsigned = do
  fingerprint ← digest_json sha256 (object (fields_of (CommitPlan.core_dict unsigned)))
  signature ← sign hmac (plan_payload (record unsigned { fingerprint = fingerprint }))
  ok (record unsigned { fingerprint = fingerprint; signature = signature })

-- What a plan sees of the world: the scans of the workspace and of the worktree, the clock, and the
-- identifier that `random_id` makes.
pub record PlanView : Type 0 where
  pub current_real : Result TreeManifest
  pub staged : Result TreeManifest
  pub created_at : ℤ
  pub plan_id : Text

module _ (py : Builtins) (sha256 hmac : List ℕ → Text) (state_root : FilePath)
    (read_json : FilePath → Result Json) (resolve : FilePath → FilePath) (cases : CaseTables)
    (floats : Floats) (policy : GuardPolicy floats) where
  -- The plan, and the two files that are written: the plan's and the transaction's.
  unfoldable pub plan : PlanView → Text → ℤ → Result (CommitPlan × List (FilePath × Json))
  unfolding transaction_state_eq list_eq nat_eq
  plan view transaction_id ttl_seconds = do
    ttl_seconds ← validate_ttl ttl_seconds max_plan_ttl_seconds
    transaction ← load_transaction py sha256 hmac state_root read_json transaction_id
    refuse (not (transaction.state == opened || transaction.state == planned)) guard_error
    baseline ← load_baseline py sha256 hmac state_root read_json resolve transaction
    current_real ← view.current_real
    refuse (not (current_real.digest == baseline.digest)) stale_plan
    staged ← view.staged
    let changes = diff_manifests baseline staged
    evaluation ← evaluate cases floats policy baseline staged changes
    policy_digest ← fingerprint floats sha256 policy
    sealed ← seal_plan sha256 hmac (
        unsigned_plan view.created_at ttl_seconds view.plan_id policy_digest transaction baseline
          staged changes evaluation)
    plan_file ← save_plan hmac state_root sealed
    transaction_file ← save_transaction hmac state_root (record transaction { state = planned })
    ok (sealed, plan_file ∷ transaction_file ∷ [])
