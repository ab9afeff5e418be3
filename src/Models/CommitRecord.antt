-- ===== src/Models/CommitRecord.antt =====
-- CommitRecord of src/agent_workspace_guard/models.py, with its conversions.
use agent_workspace_guard.Base.{
  ◌≡◌, List, [], ◌∷◌, ◌++◌, map, Text, codes, ℤ, Result, ok, ◌>>=◌, traverse,
}
use agent_workspace_guard.Json.Values.{Json, string, number, array, object, fields_of, items_of}
use agent_workspace_guard.Json.Convert.{
  Builtins, get_item, get_or_null, get_or, traverse-items_of, is_truthy, as_optional_text, as_text,
  as_items, as_pairs, text_item, int_item,
}
use agent_workspace_guard.Models.CommitOperation
use agent_workspace_guard.Models.CommitOperation.{CommitOperation}

pub record CommitRecord : Type 0 where
  pub commit_id : Text
  pub plan_id : Text
  pub transaction_id : Text
  pub workspace_root : Text
  pub quarantine_root : Text
  pub apply_root : Text
  pub operations : List CommitOperation
  pub before_digest : Text
  pub after_digest : Text
  pub created_at : ℤ
  pub status : Text
  pub signature : Text

unfoldable pub core_dict : CommitRecord → List (Text × Json)
core_dict r =
    ((codes "commit_id", string r.commit_id)
      ∷ (codes "plan_id", string r.plan_id)
      ∷ (codes "transaction_id", string r.transaction_id)
      ∷ (codes "workspace_root", string r.workspace_root)
      ∷ (codes "quarantine_root", string r.quarantine_root)
      ∷ (codes "apply_root", string r.apply_root)
      ∷ (codes "operations", array (items_of (map CommitOperation.to_dict r.operations)))
      ∷ (codes "before_digest", string r.before_digest)
      ∷ (codes "after_digest", string r.after_digest)
      ∷ (codes "created_at", number r.created_at)
      ∷ (codes "status", string r.status)
      ∷ [])

unfoldable pub to_dict : CommitRecord → Json
unfolding core_dict
to_dict r = object (fields_of (core_dict r ++ ((codes "signature", string r.signature) ∷ [])))

module _ (py : Builtins) where
  unfoldable pub from_dict : Json → Result CommitRecord
  unfolding get_item get_or_null get_or text_item int_item as_optional_text as_pairs as_items
      is_truthy as_text
  from_dict value = do
    commit_id ← text_item py value (codes "commit_id")
    plan_id ← text_item py value (codes "plan_id")
    transaction_id ← text_item py value (codes "transaction_id")
    workspace_root ← text_item py value (codes "workspace_root")
    quarantine_root ← text_item py value (codes "quarantine_root")
    apply_root ← text_item py value (codes "apply_root")
    operations ←
        traverse (CommitOperation.from_dict py) (← as_items (← get_item value (codes "operations")))
    before_digest ← text_item py value (codes "before_digest")
    after_digest ← text_item py value (codes "after_digest")
    created_at ← int_item py value (codes "created_at")
    status ← text_item py value (codes "status")
    signature ← ok (as_text py (← get_or value (codes "signature") (string [])))
    ok (record {
      commit_id = commit_id;
      plan_id = plan_id;
      transaction_id = transaction_id;
      workspace_root = workspace_root;
      quarantine_root = quarantine_root;
      apply_root = apply_root;
      operations = operations;
      before_digest = before_digest;
      after_digest = after_digest;
      created_at = created_at;
      status = status;
      signature = signature;
    })

  -- A loaded record is the record that was written, with its operations.
  pub record_round_trip : (r : CommitRecord) → from_dict (to_dict r) ≡ ok r
  unfolding from_dict to_dict
  record_round_trip r = rw (
      traverse-items_of CommitOperation.to_dict (CommitOperation.from_dict py)
        (CommitOperation.from_dict-to_dict py) r.operations)
