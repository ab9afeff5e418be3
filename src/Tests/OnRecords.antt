-- ===== src/Tests/OnRecords.antt =====
-- Saved state, signed and loaded again.
use agent_workspace_guard.Base.{◌≡◌, refl, none, some, [], ◌∷◌, codes, pos, ok, true, false}
use agent_workspace_guard.Models.Enums.{delete, file, require_approval, pending, opened}
use agent_workspace_guard.Models.Transaction
use agent_workspace_guard.Models.Transaction.{Transaction, transaction_round_trip}
use agent_workspace_guard.Models.CommitPlan
use agent_workspace_guard.Models.CommitPlan.{CommitPlan, plan_round_trip}
use agent_workspace_guard.Models.CommitRecord
use agent_workspace_guard.Models.CommitRecord.{CommitRecord, record_round_trip}
use agent_workspace_guard.Models.Signing.{plan_signing_injective, transaction_signing_injective}
use agent_workspace_guard.Models.TreeManifest
use agent_workspace_guard.Models.TreeManifest.{TreeManifest, manifest_round_trip}
use agent_workspace_guard.Audit.{zero_hash}
use agent_workspace_guard.Tests.Hosts.{builtins}
use agent_workspace_guard.Tests.Samples.{baseline, file_entry}

abbrev pub plan : CommitPlan
plan = record {
  protocol_version = pos 1;
  plan_id = codes "plan_0123456789abcdef";
  transaction_id = codes "txn_0123456789abcdef";
  task_id = codes "tidy up";
  workspace_root = codes "/w";
  baseline_digest = zero_hash;
  staged_digest = zero_hash;
  policy_digest = zero_hash;
  changes =
      record {
        path = codes "old.txt";
        kind = delete;
        before = some (file_entry (codes "old.txt") 3);
        after = none;
      }
      ∷ [];
  findings =
      record { code = codes "c"; severity = codes "warning"; message = codes "m"; path = none }
      ∷ [];
  decision = require_approval;
  fingerprint = zero_hash;
  created_at = pos 100;
  expires_at = pos 700;
  signature = codes "sig";
  state = pending;
  summary = (codes "deleted", pos 1) ∷ [];
}

abbrev pub transaction : Transaction
transaction = record {
  transaction_id = codes "txn_0123456789abcdef";
  task_id = codes "tidy up";
  workspace_root = codes "/w";
  transaction_root = codes "/s/txn";
  worktree_root = codes "/s/txn/worktree";
  home_root = codes "/s/txn/home";
  temp_root = codes "/s/txn/tmp";
  baseline_path = codes "/s/txn/baseline.json";
  baseline_digest = zero_hash;
  created_at = pos 100;
  workspace_device = pos 7;
  state = opened;
  signature = codes "sig";
}

abbrev pub commit : CommitRecord
commit = record {
  commit_id = codes "commit_0123456789abcdef";
  plan_id = codes "plan_0123456789abcdef";
  transaction_id = codes "txn_0123456789abcdef";
  workspace_root = codes "/w";
  quarantine_root = codes "/s/q";
  apply_root = codes "/s/a";
  operations =
      record {
        path = codes "old.txt";
        change_kind = delete;
        before_kind = some file;
        after_kind = none;
        backup_path = some (codes "/s/q/old.txt");
        installed = false;
        backup_moved = true;
        phase = codes "done";
      }
      ∷ [];
  before_digest = zero_hash;
  after_digest = zero_hash;
  created_at = pos 200;
  status = codes "committed";
  signature = codes "sig";
}

plan_round_trip_example : CommitPlan.from_dict builtins (CommitPlan.to_dict plan) ≡ ok plan
plan_round_trip_example = plan_round_trip builtins plan

transaction_round_trip_example :
    Transaction.from_dict builtins (Transaction.to_dict transaction) ≡ ok transaction
transaction_round_trip_example = transaction_round_trip builtins transaction

record_round_trip_example :
    CommitRecord.from_dict builtins (CommitRecord.to_dict commit) ≡ ok commit
record_round_trip_example = record_round_trip builtins commit

manifest_round_trip_example :
    TreeManifest.from_dict builtins (TreeManifest.to_dict baseline) ≡ ok baseline
manifest_round_trip_example = manifest_round_trip builtins baseline

plan_signing_injective_example : plan ≡ plan
plan_signing_injective_example = plan_signing_injective plan plan refl refl

transaction_signing_injective_example : transaction ≡ transaction
transaction_signing_injective_example =
    transaction_signing_injective transaction transaction refl refl
