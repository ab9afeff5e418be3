-- ===== src/Models/Transaction.antt =====
-- Transaction of src/agent_workspace_guard/models.py, with its conversions.
use agent_workspace_guard.Base.{◌≡◌, List, [], ◌∷◌, ◌++◌, Text, codes, ℤ, Result, ok, ◌>>=◌}
use agent_workspace_guard.Json.Values.{Json, string, number, object, fields_of}
use agent_workspace_guard.Json.Convert.{
  Builtins, get_item, get_or_null, as_optional_text, text_item, int_item,
}
use agent_workspace_guard.Models.Enums.{
  TransactionState, transaction_state_value, transaction_state_of, transaction_state_of-value,
}

pub record Transaction : Type 0 where
  pub transaction_id : Text
  pub task_id : Text
  pub workspace_root : Text
  pub transaction_root : Text
  pub worktree_root : Text
  pub home_root : Text
  pub temp_root : Text
  pub baseline_path : Text
  pub baseline_digest : Text
  pub created_at : ℤ
  pub workspace_device : ℤ
  pub state : TransactionState
  pub signature : Text

unfoldable pub core_dict : Transaction → List (Text × Json)
core_dict r =
    ((codes "transaction_id", string r.transaction_id)
      ∷ (codes "task_id", string r.task_id)
      ∷ (codes "workspace_root", string r.workspace_root)
      ∷ (codes "transaction_root", string r.transaction_root)
      ∷ (codes "worktree_root", string r.worktree_root)
      ∷ (codes "home_root", string r.home_root)
      ∷ (codes "temp_root", string r.temp_root)
      ∷ (codes "baseline_path", string r.baseline_path)
      ∷ (codes "baseline_digest", string r.baseline_digest)
      ∷ (codes "created_at", number r.created_at)
      ∷ (codes "workspace_device", number r.workspace_device)
      ∷ [])

-- What the signature covers: the core and the state.
unfoldable pub signing_dict : Transaction → Json
unfolding core_dict
signing_dict r =
    object
      (fields_of (core_dict r ++ ((codes "state", string (transaction_state_value r.state)) ∷ [])))

unfoldable pub to_dict : Transaction → Json
unfolding core_dict
to_dict r = object (
    fields_of (
      core_dict r
      ++ ((codes "state", string (transaction_state_value r.state))
          ∷ (codes "signature", string r.signature)
          ∷ [])))

module _ (py : Builtins) where
  unfoldable pub from_dict : Json → Result Transaction
  unfolding get_item get_or_null text_item int_item as_optional_text
  from_dict value = do
    transaction_id ← text_item py value (codes "transaction_id")
    task_id ← text_item py value (codes "task_id")
    workspace_root ← text_item py value (codes "workspace_root")
    transaction_root ← text_item py value (codes "transaction_root")
    worktree_root ← text_item py value (codes "worktree_root")
    home_root ← text_item py value (codes "home_root")
    temp_root ← text_item py value (codes "temp_root")
    baseline_path ← text_item py value (codes "baseline_path")
    baseline_digest ← text_item py value (codes "baseline_digest")
    created_at ← int_item py value (codes "created_at")
    workspace_device ← int_item py value (codes "workspace_device")
    state ← transaction_state_of (← get_item value (codes "state"))
    signature ← text_item py value (codes "signature")
    ok (record {
      transaction_id = transaction_id;
      task_id = task_id;
      workspace_root = workspace_root;
      transaction_root = transaction_root;
      worktree_root = worktree_root;
      home_root = home_root;
      temp_root = temp_root;
      baseline_path = baseline_path;
      baseline_digest = baseline_digest;
      created_at = created_at;
      workspace_device = workspace_device;
      state = state;
      signature = signature;
    })

  -- A loaded transaction is the transaction that was written.
  pub transaction_round_trip : (r : Transaction) → from_dict (to_dict r) ≡ ok r
  unfolding from_dict to_dict
  transaction_round_trip r = rw (transaction_state_of-value r.state)
