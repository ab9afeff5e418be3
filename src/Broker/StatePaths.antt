-- ===== src/Broker/StatePaths.antt =====
-- Where the files of src/agent_workspace_guard/broker.py lie under its state root.
use agent_workspace_guard.Base.{◌++◌, Text, codes, nat_eq, list_eq, Result, ok, ◌>>=◌}
use agent_workspace_guard.Paths.{FilePath, parse, join_path}
use agent_workspace_guard.Validate.{validate_object_id}

module _ (state_root : FilePath) where
  -- `self.state_root / folder / name`
  unfoldable pub state_path : Text → Text → FilePath
  unfolding join_path parse
  state_path folder name = join_path (join_path state_root (parse folder)) (parse name)

  unfoldable pub transaction_path : Text → Result FilePath
  unfolding state_path
  transaction_path transaction_id = do
    transaction_id ← validate_object_id transaction_id (codes "tx")
    ok (
        join_path (state_path (codes "transactions") transaction_id)
          (parse (codes "transaction.json")))

  unfoldable pub plan_path : Text → Result FilePath
  unfolding state_path
  plan_path plan_id = do
    plan_id ← validate_object_id plan_id (codes "plan")
    ok (state_path (codes "plans") (plan_id ++ codes ".json"))

  unfoldable pub approval_path : Text → Result FilePath
  unfolding state_path
  approval_path token_id = do
    token_id ← validate_object_id token_id (codes "approval")
    ok (state_path (codes "approvals") (token_id ++ codes ".json"))

  unfoldable pub commit_path : Text → Result FilePath
  unfolding state_path
  commit_path commit_id = do
    commit_id ← validate_object_id commit_id (codes "commit")
    ok (state_path (codes "commits") (commit_id ++ codes ".json"))
