-- ===== src/Broker/Load.antt =====
-- Saving and loading signed records: `load_transaction`, `load_plan`, `load_commit`, `_load_baseline`,
-- `_save_transaction` and `_save_plan` of src/agent_workspace_guard/broker.py. `read_json` gives what
-- a file holds, or raises; a save returns the file and the value to write there.
use agent_workspace_guard.Base.{
  ℕ, not, some, List, Text, codes, ◌==◌, nat_eq, list_eq, Result, ok, integrity_error, refuse,
  ◌>>=◌, ◌>>◌,
}
use agent_workspace_guard.Paths.{FilePath, parse}
use agent_workspace_guard.Json.Values.{Json, object, string, field, end, fields_of}
use agent_workspace_guard.Json.Convert.{Builtins}
use agent_workspace_guard.Models.Transaction
use agent_workspace_guard.Models.Transaction.{Transaction}
use agent_workspace_guard.Models.CommitPlan
use agent_workspace_guard.Models.CommitPlan.{CommitPlan}
use agent_workspace_guard.Models.CommitRecord
use agent_workspace_guard.Models.CommitRecord.{CommitRecord}
use agent_workspace_guard.Models.TreeManifest
use agent_workspace_guard.Models.TreeManifest.{TreeManifest}
use agent_workspace_guard.Manifest.{digest_json}
use agent_workspace_guard.Manifest.Verify.{verify_manifest}
use agent_workspace_guard.Signer.{sign, verify}
use agent_workspace_guard.Validate.{validate_object_id}
use agent_workspace_guard.Broker.StatePaths.{transaction_path, plan_path, commit_path}
use agent_workspace_guard.Broker.Records.{
  validate_transaction_record, validate_plan_record, validate_commit_record,
}

-- `{"kind": kind, label: value}`
abbrev pub labelled : Text → Text → Json → Json
labelled kind label value = object (field (codes "kind") (string kind) (field label value end))

abbrev pub transaction_payload : Transaction → Json
transaction_payload transaction =
    labelled (codes "transaction") (codes "record") (Transaction.signing_dict transaction)

abbrev pub plan_payload : CommitPlan → Json
plan_payload plan = labelled (codes "commit_plan") (codes "record") (CommitPlan.signing_dict plan)

abbrev pub commit_payload : CommitRecord → Json
commit_payload stored =
    labelled (codes "commit_record") (codes "core")
      (object (fields_of (CommitRecord.core_dict stored)))

module _ (hmac : List ℕ → Text) (state_root : FilePath) where
  unfoldable pub save_transaction : Transaction → Result (FilePath × Json)
  unfolding transaction_path sign Transaction.signing_dict
  save_transaction transaction = do
    signature ← sign hmac (transaction_payload transaction)
    path ← transaction_path state_root transaction.transaction_id
    ok (path, Transaction.to_dict (record transaction { signature = signature }))

  unfoldable pub save_plan : CommitPlan → Result (FilePath × Json)
  unfolding plan_path sign CommitPlan.signing_dict
  save_plan plan = do
    signature ← sign hmac (plan_payload plan)
    path ← plan_path state_root plan.plan_id
    ok (path, CommitPlan.to_dict (record plan { signature = signature }))

module _ (py : Builtins) (sha256 hmac : List ℕ → Text) (state_root : FilePath)
    (read_json : FilePath → Result Json) where
  unfoldable pub load_transaction : Text → Result Transaction
  unfolding transaction_path verify Transaction.from_dict validate_transaction_record list_eq nat_eq
  load_transaction transaction_id = do
    requested_id ← validate_object_id transaction_id (codes "tx")
    value ← read_json (← transaction_path state_root requested_id)
    transaction ← Transaction.from_dict py value
    refuse (not (transaction.transaction_id == requested_id)) integrity_error
    verify hmac (transaction_payload transaction) transaction.signature
    validate_transaction_record state_root transaction
    ok transaction

  unfoldable pub load_plan : Text → Result CommitPlan
  unfolding plan_path digest_json verify CommitPlan.from_dict validate_plan_record list_eq nat_eq
  load_plan plan_id = do
    requested_id ← validate_object_id plan_id (codes "plan")
    value ← read_json (← plan_path state_root requested_id)
    plan ← CommitPlan.from_dict py value
    refuse (not (plan.plan_id == requested_id)) integrity_error
    expected_fingerprint ← digest_json sha256 (object (fields_of (CommitPlan.core_dict plan)))
    refuse (not (expected_fingerprint == plan.fingerprint)) integrity_error
    verify hmac (plan_payload plan) plan.signature
    validate_plan_record plan
    ok plan

  unfoldable pub load_commit : Text → Result CommitRecord
  unfolding commit_path verify CommitRecord.from_dict validate_commit_record list_eq nat_eq
  load_commit commit_id = do
    requested_id ← validate_object_id commit_id (codes "commit")
    value ← read_json (← commit_path state_root requested_id)
    stored ← CommitRecord.from_dict py value
    refuse (not (stored.commit_id == requested_id)) integrity_error
    verify hmac (commit_payload stored) stored.signature
    validate_commit_record state_root stored
    ok stored

  unfoldable pub load_baseline : (FilePath → FilePath) → Transaction → Result TreeManifest
  unfolding verify_manifest TreeManifest.from_dict list_eq nat_eq
  load_baseline resolve transaction = do
    value ← read_json (parse transaction.baseline_path)
    baseline ← TreeManifest.from_dict py value
    verify_manifest resolve sha256 baseline (some (parse transaction.workspace_root))
    refuse (not (baseline.digest == transaction.baseline_digest)) integrity_error
    ok baseline
