-- ===== src/Broker/Approval.antt =====
-- Approvals: `approve`, `_assert_plan_pending_and_fresh`, `_resolve_approval` and `_verify_approval` of
-- src/agent_workspace_guard/broker.py. `now` is the clock when a check reads it.
pub mod Issued
use agent_workspace_guard.Base.{
  ℕ, not, ◌||◌, List, [], Text, codes, ◌==◌, nat_eq, list_eq, ℤ, ltb_ℤ, leb_ℤ, min_ℤ, ◌+ℤ◌, ◌-ℤ◌,
  Result, ok, err, guard_error, approval_error, integrity_error, policy_denied, stale_plan, refuse,
  recast, ◌>>=◌, ◌>>◌,
}
use agent_workspace_guard.Paths.{FilePath}
use agent_workspace_guard.Json.Values.{Json, object, fields_of}
use agent_workspace_guard.Json.Convert.{Builtins}
use agent_workspace_guard.Models.Enums.{pending, plan_state_eq, deny, decision_eq}
use agent_workspace_guard.Models.CommitPlan.{CommitPlan}
use agent_workspace_guard.Models.ApprovalToken
use agent_workspace_guard.Models.ApprovalToken.{ApprovalToken}
use agent_workspace_guard.Validate.{
  validate_object_id, validate_text_field, validate_ttl, validate_sha256,
}
use agent_workspace_guard.Signer.{sign, verify}
use agent_workspace_guard.Broker.StatePaths.{approval_path}
use agent_workspace_guard.Broker.Records.{
  has_bad_lifetime, max_actor_length, max_approval_ttl_seconds,
}
use agent_workspace_guard.Broker.Load.{labelled, load_plan}

unfoldable pub assert_plan_pending_and_fresh : ℤ → CommitPlan → Result (Unit {0})
unfolding plan_state_eq
assert_plan_pending_and_fresh now plan = do
  refuse (not (plan.state == pending)) guard_error
  refuse (leb_ℤ plan.expires_at now) stale_plan

abbrev pub approval_payload : ApprovalToken → Json
approval_payload token =
    labelled (codes "approval") (codes "core") (object (fields_of (ApprovalToken.core_dict token)))

-- What the caller passes as `approval_token`: nothing, a token, or the identifier of a stored one.
pub data Approval : Type 0 where
  missing : Approval
  given : ApprovalToken → Approval
  stored : Text → Approval

module _ (hmac : List ℕ → Text) where
  unfoldable pub verify_approval : ℤ → ApprovalToken → CommitPlan → Result (Unit {0})
  unfolding has_bad_lifetime verify list_eq nat_eq ◌-ℤ◌
  verify_approval now token plan = do
    _ ← validate_object_id token.token_id (codes "approval")
    _ ← validate_object_id token.plan_id (codes "plan")
    verify hmac (approval_payload token) token.signature
    _ ← recast approval_error (validate_text_field token.actor max_actor_length)
    refuse (has_bad_lifetime token.created_at token.expires_at) approval_error
    refuse (ltb_ℤ max_approval_ttl_seconds (token.expires_at -ℤ token.created_at)) approval_error
    refuse (leb_ℤ token.expires_at now) approval_error
    refuse (ltb_ℤ plan.expires_at token.expires_at) approval_error
    _ ← recast approval_error (validate_sha256 token.plan_fingerprint)
    refuse (not (token.plan_id == plan.plan_id) || not (token.plan_fingerprint == plan.fingerprint))
        approval_error

-- The token of `approve`, before it is signed.
unfoldable pub unsigned_token : ℤ → Text → Text → ℤ → CommitPlan → ApprovalToken
unfolding ◌+ℤ◌
unsigned_token created_at token_id actor ttl_seconds plan = record {
  token_id = token_id;
  plan_id = plan.plan_id;
  plan_fingerprint = plan.fingerprint;
  actor = actor;
  created_at = created_at;
  expires_at = min_ℤ plan.expires_at (created_at +ℤ ttl_seconds);
  signature = [];
}

module _ (py : Builtins) (sha256 hmac : List ℕ → Text) (state_root : FilePath)
    (read_json : FilePath → Result Json) where
  -- `approve` reads the clock twice: as `now` for the check of the plan, as `created_at` for the
  -- token. It returns the token, and the file that it is written to.
  unfoldable pub approve : ℤ → ℤ → Text → Text → Text → ℤ → Result (ApprovalToken × FilePath)
  unfolding sign decision_eq assert_plan_pending_and_fresh unsigned_token load_plan approval_path
  approve now created_at token_id plan_id actor ttl_seconds = do
    actor ← recast approval_error (validate_text_field actor max_actor_length)
    ttl_seconds ← recast approval_error (validate_ttl ttl_seconds max_approval_ttl_seconds)
    plan ← load_plan py sha256 hmac state_root read_json plan_id
    assert_plan_pending_and_fresh now plan
    refuse (plan.decision == deny) policy_denied
    let unsigned = unsigned_token created_at token_id actor ttl_seconds plan
    signature ← sign hmac (approval_payload unsigned)
    path ← approval_path state_root token_id
    ok (record unsigned { signature = signature }, path)

module _ (py : Builtins) (state_root : FilePath) (read_json : FilePath → Result Json) where
  unfoldable pub resolve_approval : Approval → Result ApprovalToken
  unfolding approval_path ApprovalToken.from_dict list_eq nat_eq
  resolve_approval missing = err approval_error
  resolve_approval (given token) = ok token
  resolve_approval (stored approval) = do
    requested_id ← validate_object_id approval (codes "approval")
    value ← read_json (← approval_path state_root requested_id)
    token ← ApprovalToken.from_dict py value
    refuse (not (token.token_id == requested_id)) integrity_error
    ok token
