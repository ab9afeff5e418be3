-- ===== src/Tests/OnPerforms.antt =====
-- A plan that adds one file, in a store with its transaction and its baseline, and its commit.
use agent_workspace_guard.Base.{
  ◌||◌, ◌≡◌, refl, int_eq, list_eq, nat_eq, ◌==◌, none, some, if◌then◌else◌, [], ◌∷◌, List, Text,
  codes, pos, Result, ok, err, guard_error,
}
use agent_workspace_guard.Paths.{FilePath, render}
use agent_workspace_guard.Json.Values.{Json}
use agent_workspace_guard.Json.Dump.{canonical_json}
use agent_workspace_guard.Models.CommitRecord
use agent_workspace_guard.Models.CommitOperation
use agent_workspace_guard.Models.Enums.{
  deny, file, planned, PlanState, TransactionState, entry_kind_value, change_kind_value,
}
use agent_workspace_guard.Models.Change.{Change}
use agent_workspace_guard.Models.TreeManifest
use agent_workspace_guard.Models.TreeManifest.{TreeManifest}
use agent_workspace_guard.Models.CommitPlan
use agent_workspace_guard.Models.CommitPlan.{CommitPlan}
use agent_workspace_guard.Models.Transaction
use agent_workspace_guard.Models.Transaction.{Transaction}
use agent_workspace_guard.Models.CommitRecord.{CommitRecord}
use agent_workspace_guard.Manifest.{diff_manifests, tree_digest}
use agent_workspace_guard.Policy.Config.{fingerprint}
use agent_workspace_guard.Policy.Evaluate.{Evaluation, evaluate}
use agent_workspace_guard.Signer.{sign}
use agent_workspace_guard.FileSystem.{private_directory, Files, Node, World, lexists}
use agent_workspace_guard.FileSystem.Triples.{Ends}
use agent_workspace_guard.Broker.Load.{transaction_payload}
use agent_workspace_guard.Broker.Plan.{seal_plan}
use agent_workspace_guard.Broker.Approval.{missing}
use agent_workspace_guard.Broker.Commit.{View}
use agent_workspace_guard.Broker.Perform.{Job, perform}
use agent_workspace_guard.Broker.Held.{Held}
use agent_workspace_guard.Broker.Perform.Whole.{commit, job_of}
use agent_workspace_guard.Broker.Perform.Admitted.{IsCommitted, Raised, commit-IsCommitted}
use agent_workspace_guard.Audit.{zero_hash}
use agent_workspace_guard.Tests.Hosts.{ascii_cases, millionths, checksum, builtins}
use agent_workspace_guard.Tests.Samples.{guard_policy, file_entry, or_nil, here}
use agent_workspace_guard.Tests.OnRecords

abbrev pub baseline : TreeManifest
baseline = record {
  root = codes "/w";
  entries = [];
  digest = or_nil (tree_digest checksum []);
  total_files = pos 0;
  total_bytes = pos 0;
}

abbrev staged : TreeManifest
staged = record {
  root = codes "/w";
  entries = (codes "b", file_entry (codes "b") 4) ∷ [];
  digest = zero_hash;
  total_files = pos 1;
  total_bytes = pos 4;
}

abbrev changes : List Change
changes = diff_manifests baseline staged

abbrev or_denied : Result Evaluation → Evaluation
or_denied (ok evaluation) = evaluation
or_denied (err e) = (deny, [], [])

abbrev outcome : Evaluation
outcome = or_denied (evaluate ascii_cases millionths guard_policy baseline staged changes)

abbrev unsealed : CommitPlan
unsealed = record OnRecords.plan {
  transaction_id = codes "tx_0123456789abcdef0";
  baseline_digest = baseline.digest;
  policy_digest = or_nil (fingerprint millionths checksum guard_policy);
  changes = changes;
  decision = outcome.0;
  findings = outcome.1;
  summary = outcome.2;
}

abbrev pub or_unsealed : Result CommitPlan → CommitPlan
or_unsealed (ok plan) = plan
or_unsealed (err e) = unsealed

abbrev pub plan : CommitPlan
plan = or_unsealed (seal_plan checksum checksum unsealed)

abbrev unsigned : Transaction
unsigned = record OnRecords.transaction {
  transaction_id = codes "tx_0123456789abcdef0";
  transaction_root = codes "/s/transactions/tx_0123456789abcdef0";
  worktree_root = codes "/s/transactions/tx_0123456789abcdef0/worktree";
  home_root = codes "/s/transactions/tx_0123456789abcdef0/home";
  temp_root = codes "/s/transactions/tx_0123456789abcdef0/tmp";
  baseline_path = codes "/s/transactions/tx_0123456789abcdef0/baseline.json";
  baseline_digest = baseline.digest;
  state = planned;
}

abbrev pub transaction : Transaction
transaction = record unsigned { signature = or_nil (sign checksum (transaction_payload unsigned)) }

abbrev pub at : FilePath → FilePath
at path = codes "/" ∷ codes "s" ∷ path

abbrev pub stored : FilePath → List (FilePath × Json) → Result Json
stored path [] = err guard_error
stored path ((p, value) ∷ entries) = if p == path then ok value else stored path entries

abbrev pub transaction_file : Text → FilePath
transaction_file name = at (codes "transactions" ∷ codes "tx_0123456789abcdef0" ∷ name ∷ [])

abbrev pub store : FilePath → Result Json
store path = stored path (
    (at (codes "plans" ∷ codes "plan_0123456789abcdef.json" ∷ []), CommitPlan.to_dict plan)
    ∷ (transaction_file (codes "transaction.json"), Transaction.to_dict transaction)
    ∷ (transaction_file (codes "baseline.json"), TreeManifest.to_dict baseline)
    ∷ [])

abbrev view : View
view = record {
  now = pos 120;
  approval_now = pos 121;
  current_real = ok baseline;
  current_staged = ok staged;
  workspace_device = pos 7;
  state_device = pos 7;
}

abbrev pub commit_id : Text
commit_id = codes "commit_0123456789abcdef"

abbrev workspace : FilePath
workspace = codes "/" ∷ codes "w" ∷ []

abbrev added : FilePath
added = codes "/" ∷ codes "w" ∷ codes "b" ∷ []

-- What a scan finds: the workspace is as staged once the file is there.
abbrev pub digest_of : FilePath → Files → Result Text
digest_of root files =
    if root == workspace
    then ok (if lexists added files then zero_hash else baseline.digest)
    else ok zero_hash

abbrev copies : FilePath → FilePath → Result (Unit {0})
copies source destination = ok tt

abbrev a_file : Node
a_file = record { kind = file; mode = pos 0o644; content = 1 ∷ [] }

abbrev copied : Files → Files
copied files path =
    if path == at (codes "apply" ∷ commit_id ∷ codes "b" ∷ []) then some a_file else files path

abbrev pub world : World Held
world = record {
  files = λ path.
      if path == at (codes "quarantine" ∷ []) || path == at (codes "apply" ∷ [])
      then some private_directory
      else none;
  faults = [];
  memory = record {
    operations = [];
    signature = [];
    commit_status = none;
    plan_state = PlanState.pending;
    transaction_state = TransactionState.planned;
  };
}

abbrev committed : Result CommitRecord × World Held
committed =
    commit builtins checksum checksum (at []) store here ascii_cases millionths guard_policy
      digest_of copies copied view commit_id (pos 130) plan.plan_id missing world

commit-IsCommitted_example :
    Ends
      (IsCommitted builtins checksum checksum
        (at [])
        store
        here
        ascii_cases
        millionths
        guard_policy
        digest_of
        copies
        copied
        view
        commit_id
        (pos 130)
        plan.plan_id
        missing)
      (Raised builtins checksum checksum
        (at [])
        store
        here
        ascii_cases
        millionths
        guard_policy
        digest_of
        copies
        copied
        view
        commit_id
        (pos 130)
        plan.plan_id
        missing)
      committed
commit-IsCommitted_example =
    commit-IsCommitted builtins checksum checksum (at []) store here ascii_cases millionths
      guard_policy digest_of copies copied view commit_id (pos 130) plan.plan_id missing world
      (record { plan = refl; transaction = refl })

abbrev job : Job
job =
    job_of builtins checksum checksum (at []) store here ascii_cases millionths guard_policy
      digest_of copies copied commit_id (pos 130) unsealed unsigned baseline

abbrev pub performed : Result CommitRecord × World Held
performed = perform checksum digest_of here copies copied (at []) job world

perform_commits : performed.1.memory.transaction_state ≡ TransactionState.committed
unfolding perform diff_manifests canonical_json CommitRecord.core_dict render tree_digest
    CommitOperation.to_dict entry_kind_value change_kind_value
perform_commits = refl
