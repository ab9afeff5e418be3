-- ===== src/Broker/Records.antt =====
-- The checks of loaded records: `_validate_transaction_record`, `_validate_plan_record` and
-- `_validate_commit_record` of src/agent_workspace_guard/broker.py.
use agent_workspace_guard.Base.{
  ℕ, Bool, false, not, ◌||◌, Option, none, some, List, [], ◌∷◌, Text, codes, ◌==◌, nat_eq, list_eq,
  int_eq, contains, ℤ, pos, ltb_ℤ, leb_ℤ, ◌-ℤ◌, Result, ok, err, integrity_error, refuse, recast,
  for_each, ◌>>=◌, ◌>>◌,
}
use agent_workspace_guard.Paths.{
  FilePath, parse, is_absolute, join_path, validate_relative_path, safe_join,
}
use agent_workspace_guard.Validate.{validate_object_id, validate_text_field, validate_sha256}
use agent_workspace_guard.Models.Enums.{EntryKind}
use agent_workspace_guard.Models.ManifestEntry.{ManifestEntry}
use agent_workspace_guard.Models.Change.{Change}
use agent_workspace_guard.Models.Transaction.{Transaction}
use agent_workspace_guard.Models.CommitPlan.{CommitPlan}
use agent_workspace_guard.Models.CommitOperation.{CommitOperation}
use agent_workspace_guard.Models.CommitRecord.{CommitRecord}
use agent_workspace_guard.Broker.StatePaths.{state_path}

-- `MAX_PLAN_TTL_SECONDS`, `MAX_APPROVAL_TTL_SECONDS`, `MAX_TASK_ID_LENGTH`, `MAX_ACTOR_LENGTH` and
-- `PROTOCOL_VERSION`.
abbrev pub max_plan_ttl_seconds : ℤ
max_plan_ttl_seconds = pos 3600

abbrev pub max_approval_ttl_seconds : ℤ
max_approval_ttl_seconds = pos 900

abbrev pub max_task_id_length : ℕ
max_task_id_length = 256

abbrev pub max_actor_length : ℕ
max_actor_length = 256

abbrev pub supported_version : ℤ
supported_version = pos 1

-- The two ends of a lease and its length.
unfoldable pub has_bad_lifetime : ℤ → ℤ → Bool
has_bad_lifetime created_at expires_at = ltb_ℤ created_at (pos 0) || leb_ℤ expires_at created_at

abbrev pub check_digest : Text → Result (Unit {0})
check_digest digest = recast integrity_error (validate_sha256 digest) >>= λ _. ok tt

abbrev other_path : Text → Option ManifestEntry → Bool
other_path path none = false
other_path path (some entry) = not (entry.path == path)

-- The body of the loop over the changes of a plan.
unfoldable pub validate_change : Change → Result (Unit {0})
unfolding list_eq nat_eq
validate_change change = do
  _ ← validate_relative_path change.path
  refuse (other_path change.path change.before) integrity_error
  refuse (other_path change.path change.after) integrity_error

unfoldable pub validate_plan_record : CommitPlan → Result (Unit {0})
unfolding validate_change has_bad_lifetime is_absolute parse int_eq nat_eq ◌-ℤ◌
validate_plan_record plan = do
  refuse (not (plan.protocol_version == supported_version)) integrity_error
  _ ← validate_object_id plan.plan_id (codes "plan")
  _ ← validate_object_id plan.transaction_id (codes "tx")
  _ ← validate_text_field plan.task_id max_task_id_length
  refuse (not (is_absolute (parse plan.workspace_root))) integrity_error
  refuse (has_bad_lifetime plan.created_at plan.expires_at) integrity_error
  refuse (ltb_ℤ max_plan_ttl_seconds (plan.expires_at -ℤ plan.created_at)) integrity_error
  check_digest plan.baseline_digest
  check_digest plan.staged_digest
  check_digest plan.policy_digest
  check_digest plan.fingerprint
  for_each validate_change plan.changes

module _ (state_root : FilePath) where
  -- The five paths of a transaction, in the order of the loop.
  unfoldable pub check_transaction_paths : Transaction → Result (Unit {0})
  unfolding state_path join_path parse list_eq nat_eq
  check_transaction_paths transaction = do
    let root = state_path state_root (codes "transactions") transaction.transaction_id
    refuse (not (parse transaction.transaction_root == root)) integrity_error
    refuse (not (parse transaction.worktree_root == join_path root (parse (codes "worktree"))))
        integrity_error
    refuse (not (parse transaction.home_root == join_path root (parse (codes "home"))))
        integrity_error
    refuse (not (parse transaction.temp_root == join_path root (parse (codes "tmp"))))
        integrity_error
    refuse (not (parse transaction.baseline_path == join_path root (parse (codes "baseline.json"))))
        integrity_error

  unfoldable pub validate_transaction_record : Transaction → Result (Unit {0})
  unfolding check_transaction_paths is_absolute parse
  validate_transaction_record transaction = do
    _ ← validate_object_id transaction.transaction_id (codes "tx")
    _ ← validate_text_field transaction.task_id max_task_id_length
    check_transaction_paths transaction
    refuse (not (is_absolute (parse transaction.workspace_root))) integrity_error
    refuse (ltb_ℤ transaction.created_at (pos 0) || ltb_ℤ transaction.workspace_device (pos 0))
        integrity_error
    check_digest transaction.baseline_digest

  -- `backup_path` fits `before_kind` and lies at its place in the quarantine.
  unfoldable pub check_backup : FilePath → Option Text → Option EntryKind → Result (Unit {0})
  unfolding parse list_eq nat_eq
  check_backup expected_backup none none = ok tt
  check_backup expected_backup none (some kind) = err integrity_error
  check_backup expected_backup (some path) none = err integrity_error
  check_backup expected_backup (some path) (some kind) =
      refuse (not (parse path == expected_backup)) integrity_error

  -- The loop over the operations, with the paths seen so far.
  unfoldable pub check_operations : FilePath → List Text → List CommitOperation → Result (Unit {0})
  unfolding check_backup list_eq nat_eq
  check_operations quarantine seen_paths [] = ok tt
  check_operations quarantine seen_paths (operation ∷ operations) =
      (do
        _ ← validate_relative_path operation.path
        refuse (contains seen_paths operation.path) integrity_error
        expected_backup ← safe_join quarantine operation.path
        check_backup expected_backup operation.backup_path operation.before_kind)
      >>= λ _. check_operations quarantine (operation.path ∷ seen_paths) operations

  abbrev allowed_statuses : List Text
  allowed_statuses =
      codes "prepared"
      ∷ codes "committed"
      ∷ codes "rolled_back"
      ∷ codes "rollback_failed"
      ∷ codes "restored"
      ∷ []

  unfoldable pub validate_commit_record : CommitRecord → Result (Unit {0})
  unfolding state_path check_operations is_absolute parse list_eq nat_eq
  validate_commit_record stored = do
    _ ← validate_object_id stored.commit_id (codes "commit")
    _ ← validate_object_id stored.plan_id (codes "plan")
    _ ← validate_object_id stored.transaction_id (codes "tx")
    refuse (not (is_absolute (parse stored.workspace_root))) integrity_error
    let expected_quarantine = state_path state_root (codes "quarantine") stored.commit_id
    let expected_apply = state_path state_root (codes "apply") stored.commit_id
    refuse (not (parse stored.quarantine_root == expected_quarantine)) integrity_error
    refuse (not (parse stored.apply_root == expected_apply)) integrity_error
    refuse (ltb_ℤ stored.created_at (pos 0)) integrity_error
    check_digest stored.before_digest
    check_digest stored.after_digest
    refuse (not (contains allowed_statuses stored.status)) integrity_error
    check_operations expected_quarantine [] stored.operations
