-- ===== src/Models/CommitPlan.antt =====
-- CommitPlan of src/agent_workspace_guard/models.py, with its conversions.
use agent_workspace_guard.Base.{
  ◌≡◌, refl, List, [], ◌∷◌, ◌++◌, map, Text, codes, ℤ, Result, ok, ◌>>=◌, traverse,
}
use agent_workspace_guard.Json.Values.{
  Json, string, number, array, object, end, fields_of, items_of,
}
use agent_workspace_guard.Json.Convert.{
  Builtins, get_item, get_or_null, get_or, values_to, values_from, values_from-values_to,
  traverse-items_of, is_truthy, as_optional_text, as_text, as_int, as_items, as_pairs, text_item,
  int_item,
}
use agent_workspace_guard.Models.Change
use agent_workspace_guard.Models.Change.{Change}
use agent_workspace_guard.Models.Finding
use agent_workspace_guard.Models.Finding.{Finding}
use agent_workspace_guard.Models.Enums.{Decision, decision_value, decision_of, decision_of-value}
use agent_workspace_guard.Models.Enums.{
  PlanState, plan_state_value, plan_state_of, plan_state_of-value,
}

pub record CommitPlan : Type 0 where
  pub protocol_version : ℤ
  pub plan_id : Text
  pub transaction_id : Text
  pub task_id : Text
  pub workspace_root : Text
  pub baseline_digest : Text
  pub staged_digest : Text
  pub policy_digest : Text
  pub changes : List Change
  pub findings : List Finding
  pub decision : Decision
  pub fingerprint : Text
  pub created_at : ℤ
  pub expires_at : ℤ
  pub signature : Text
  pub state : PlanState
  pub summary : List (Text × ℤ)

unfoldable pub core_dict : CommitPlan → List (Text × Json)
core_dict r =
    ((codes "protocol_version", number r.protocol_version)
      ∷ (codes "plan_id", string r.plan_id)
      ∷ (codes "transaction_id", string r.transaction_id)
      ∷ (codes "task_id", string r.task_id)
      ∷ (codes "workspace_root", string r.workspace_root)
      ∷ (codes "baseline_digest", string r.baseline_digest)
      ∷ (codes "staged_digest", string r.staged_digest)
      ∷ (codes "policy_digest", string r.policy_digest)
      ∷ (codes "changes", array (items_of (map Change.to_dict r.changes)))
      ∷ (codes "findings", array (items_of (map Finding.to_dict r.findings)))
      ∷ (codes "decision", string (decision_value r.decision))
      ∷ (codes "created_at", number r.created_at)
      ∷ (codes "expires_at", number r.expires_at)
      ∷ (codes "summary", object (fields_of (values_to number r.summary)))
      ∷ [])

-- What the signature covers: the fingerprint, the state and the core.
unfoldable pub signing_dict : CommitPlan → Json
unfolding core_dict
signing_dict r = object (
    fields_of (
      (codes "fingerprint", string r.fingerprint)
      ∷ (codes "state", string (plan_state_value r.state))
      ∷ (codes "core", object (fields_of (core_dict r)))
      ∷ []))

unfoldable pub to_dict : CommitPlan → Json
unfolding core_dict
to_dict r = object (
    fields_of (
      core_dict r
      ++ ((codes "fingerprint", string r.fingerprint)
          ∷ (codes "signature", string r.signature)
          ∷ (codes "state", string (plan_state_value r.state))
          ∷ [])))

module _ (py : Builtins) where
  unfoldable pub from_dict : Json → Result CommitPlan
  unfolding get_item get_or_null get_or text_item int_item as_optional_text as_pairs as_items
      is_truthy as_text
  from_dict value = do
    protocol_version ← int_item py value (codes "protocol_version")
    plan_id ← text_item py value (codes "plan_id")
    transaction_id ← text_item py value (codes "transaction_id")
    task_id ← text_item py value (codes "task_id")
    workspace_root ← text_item py value (codes "workspace_root")
    baseline_digest ← text_item py value (codes "baseline_digest")
    staged_digest ← text_item py value (codes "staged_digest")
    policy_digest ← text_item py value (codes "policy_digest")
    changes ← traverse (Change.from_dict py) (← as_items (← get_item value (codes "changes")))
    findings ← traverse (Finding.from_dict py) (← as_items (← get_item value (codes "findings")))
    decision ← decision_of (← get_item value (codes "decision"))
    fingerprint ← text_item py value (codes "fingerprint")
    created_at ← int_item py value (codes "created_at")
    expires_at ← int_item py value (codes "expires_at")
    signature ← text_item py value (codes "signature")
    state ← plan_state_of (← get_item value (codes "state"))
    summary ←
        values_from (as_int py) (← as_pairs py (← get_or value (codes "summary") (object end)))
    ok (record {
      protocol_version = protocol_version;
      plan_id = plan_id;
      transaction_id = transaction_id;
      task_id = task_id;
      workspace_root = workspace_root;
      baseline_digest = baseline_digest;
      staged_digest = staged_digest;
      policy_digest = policy_digest;
      changes = changes;
      findings = findings;
      decision = decision;
      fingerprint = fingerprint;
      created_at = created_at;
      expires_at = expires_at;
      signature = signature;
      state = state;
      summary = summary;
    })

  as_int-number : (n : ℤ) → as_int py (number n) ≡ ok n
  unfolding as_int
  as_int-number n = refl

  -- A loaded plan is the plan that was written.
  pub plan_round_trip : (r : CommitPlan) → from_dict (to_dict r) ≡ ok r
  unfolding from_dict to_dict
  plan_round_trip r = rw (
    traverse-items_of Change.to_dict (Change.from_dict py) (Change.from_dict-to_dict py) r.changes,
    traverse-items_of Finding.to_dict (Finding.from_dict py) (Finding.from_dict-to_dict py)
        r.findings,
    decision_of-value r.decision,
    plan_state_of-value r.state,
    values_from-values_to number (as_int py) as_int-number r.summary,
  )
