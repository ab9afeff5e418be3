-- ===== src/Broker/Commit.antt =====
-- The checks of `commit` of src/agent_workspace_guard/broker.py, up to the point where it starts to
-- write. Its lock is in Lock, its changes are in Perform.
pub mod Admitted
pub mod Reevaluated
pub mod Permitted
use agent_workspace_guard.Base.{
  ◌≡◌, ℕ, Bool, true, false, not, ◌&&◌, ◌||◌, Option, none, some, List, [], ◌∷◌, map, length, Text,
  codes, ◌==◌, nat_eq, list_eq, int_eq, if◌then◌else◌, ℤ, Result, ok, err, guard_error,
  integrity_error, policy_denied, stale_plan, refuse, ◌>>=◌, ◌>>◌,
}
use agent_workspace_guard.Paths.{FilePath}
use agent_workspace_guard.Host.{CaseTables, Floats}
use agent_workspace_guard.Json.Values.{Json, json_eq}
use agent_workspace_guard.Json.Convert.{Builtins}
use agent_workspace_guard.Models.Enums.{
  Decision, allow, require_approval, deny, decision_eq, TransactionState, planned,
  transaction_state_eq,
}
use agent_workspace_guard.Models.Change
use agent_workspace_guard.Models.Change.{Change}
use agent_workspace_guard.Models.Finding
use agent_workspace_guard.Models.Finding.{Finding}
use agent_workspace_guard.Models.TreeManifest.{TreeManifest}
use agent_workspace_guard.Models.Transaction.{Transaction}
use agent_workspace_guard.Models.CommitPlan.{CommitPlan}
use agent_workspace_guard.Manifest.{diff_manifests}
use agent_workspace_guard.Policy.Config.{GuardPolicy, fingerprint}
use agent_workspace_guard.Policy.Evaluate.{Evaluation, evaluate}
use agent_workspace_guard.Broker.Load.{load_transaction, load_plan, load_baseline}
use agent_workspace_guard.Broker.Approval.{
  Approval, assert_plan_pending_and_fresh, verify_approval, resolve_approval,
}

abbrev Summary : Type 0
Summary = List (Text × ℤ)

-- `summary[key] == value`
abbrev pub holds : Summary → Text → ℤ → Bool
holds [] key value = false
holds ((k, v) ∷ rest) key value = if k == key then v == value else holds rest key value

abbrev holds_all : Summary → Summary → Bool
holds_all [] right = true
holds_all ((k, v) ∷ left) right = holds right k v && holds_all left right

-- `left == right` of two dictionaries, whatever the order of their keys.
unfoldable pub same_summary : Summary → Summary → Bool
unfolding list_eq nat_eq int_eq
same_summary left right = length left == length right && holds_all left right

unfoldable pub matches_transaction : CommitPlan → Transaction → Bool
unfolding list_eq nat_eq
matches_transaction plan transaction =
    plan.task_id == transaction.task_id
    && plan.workspace_root == transaction.workspace_root
    && plan.baseline_digest == transaction.baseline_digest

-- The plan holds what the policy says now.
unfoldable pub matches_evaluation : CommitPlan → List Change → Evaluation → Bool
unfolding same_summary decision_eq json_eq list_eq
matches_evaluation plan changes (decision, findings, summary) =
    map Change.to_dict changes == map Change.to_dict plan.changes
    && decision == plan.decision
    && map Finding.to_dict findings == map Finding.to_dict plan.findings
    && same_summary summary plan.summary

-- What the commit sees of the world: the clock at its two checks, the scans of the workspace and of
-- the worktree, and the devices that hold the workspace and the state root.
pub record View : Type 0 where
  pub now : ℤ
  pub approval_now : ℤ
  pub current_real : Result TreeManifest
  pub current_staged : Result TreeManifest
  pub workspace_device : ℤ
  pub state_device : ℤ

module _ (sha256 : List ℕ → Text) (cases : CaseTables) (floats : Floats)
    (policy : GuardPolicy floats) where
  -- Under the lock: the two trees, the policy, and the evaluation once more.
  unfoldable pub check_result : View → CommitPlan → Transaction → TreeManifest → Result (Unit {0})
  unfolding list_eq nat_eq int_eq
  check_result view plan transaction baseline = do
    current_real ← view.current_real
    current_staged ← view.current_staged
    refuse (not (current_real.digest == plan.baseline_digest)) stale_plan
    refuse (not (current_staged.digest == plan.staged_digest)) stale_plan
    current_policy ← fingerprint floats sha256 policy
    refuse (not (plan.policy_digest == current_policy)) stale_plan
    let current_changes = diff_manifests baseline current_staged
    current ← evaluate cases floats policy baseline current_staged current_changes
    refuse (not (matches_evaluation plan current_changes current)) integrity_error
    refuse (not (view.workspace_device == transaction.workspace_device)) stale_plan
    refuse (not (view.workspace_device == view.state_device)) guard_error

module _ (py : Builtins) (sha256 hmac : List ℕ → Text) (state_root : FilePath)
    (read_json : FilePath → Result Json) where
  -- The test for a token, by the decision of the plan.
  unfoldable pub check_approval : ℤ → Approval → CommitPlan → Result (Unit {0})
  unfolding decision_eq
  check_approval now approval plan =
      if plan.decision == require_approval
      then (do
        token ← resolve_approval py state_root read_json approval
        verify_approval hmac now token plan)
      else ok tt

  -- Before the lock is taken: the plan, its approval and its transaction.
  unfoldable pub authorize : View → Text → Approval → Result (CommitPlan × Transaction)
  unfolding decision_eq transaction_state_eq
  authorize view plan_id approval = do
    plan ← load_plan py sha256 hmac state_root read_json plan_id
    assert_plan_pending_and_fresh view.now plan
    refuse (plan.decision == deny) policy_denied
    check_approval view.approval_now approval plan
    transaction ← load_transaction py sha256 hmac state_root read_json plan.transaction_id
    refuse (not (transaction.state == planned)) guard_error
    refuse (not (matches_transaction plan transaction)) integrity_error
    ok (plan, transaction)

  module _ (resolve : FilePath → FilePath) (cases : CaseTables) (floats : Floats)
      (policy : GuardPolicy floats) where
    unfoldable pub admit_commit :
        View → Text → Approval → Result (CommitPlan × Transaction × TreeManifest)
    admit_commit view plan_id approval = do
      (plan, transaction) ← authorize view plan_id approval
      baseline ← load_baseline py sha256 hmac state_root read_json resolve transaction
      check_result sha256 cases floats policy view plan transaction baseline
      ok (plan, transaction, baseline)
