-- ===== src/Tests/OnCommits.antt =====
-- A token for a plan that needs approval.
use agent_workspace_guard.Base.{◌≡◌, refl, arith, ◌+ℤ◌, codes, pos, ok}
use agent_workspace_guard.Models.ApprovalToken.{ApprovalToken}
use agent_workspace_guard.Models.ApprovalToken
use agent_workspace_guard.Signer.{sign, verify}
use agent_workspace_guard.Json.Dump.{canonical_json}
use agent_workspace_guard.Validate.{
  validate_object_id, validate_text_field, validate_ttl, validate_sha256,
}
use agent_workspace_guard.Broker.Approval.{approval_payload, unsigned_token, verify_approval}
use agent_workspace_guard.Broker.Records.{max_actor_length, max_approval_ttl_seconds}
use agent_workspace_guard.Broker.Approval.Issued.{verify_approval-unsigned_token}
use agent_workspace_guard.Broker.Commit.Admitted.{IsApproval, verify_approval-IsApproval}
use agent_workspace_guard.Tests.Hosts.{checksum}
use agent_workspace_guard.Tests.Samples.{or_nil}
use agent_workspace_guard.Tests.OnRecords.{plan}
use agent_workspace_guard.Tests.OnLogs.{checksum_ascii}

abbrev unsigned : ApprovalToken
unsigned = unsigned_token (pos 110) (codes "approval_0123456789abcdef") (codes "ann") (pos 300) plan

abbrev token : ApprovalToken
token = record unsigned { signature = or_nil (sign checksum (approval_payload unsigned)) }

approved : verify_approval checksum (pos 200) token plan ≡ ok tt
unfolding verify_approval unsigned_token sign verify validate_object_id validate_text_field
    validate_sha256 canonical_json ApprovalToken.core_dict
approved = refl

verify_approval-IsApproval_example : IsApproval checksum (pos 200) token plan
verify_approval-IsApproval_example =
    verify_approval-IsApproval checksum (pos 200) token plan approved

ann : validate_text_field (codes "ann") max_actor_length ≡ ok (codes "ann")
unfolding validate_text_field
ann = refl

five_minutes : validate_ttl (pos 300) max_approval_ttl_seconds ≡ ok (pos 300)
unfolding validate_ttl
five_minutes = refl

token_id_valid :
    validate_object_id (codes "approval_0123456789abcdef") (codes "approval")
    ≡ ok (codes "approval_0123456789abcdef")
unfolding validate_object_id
token_id_valid = refl

plan_id_valid : validate_object_id plan.plan_id (codes "plan") ≡ ok plan.plan_id
unfolding validate_object_id
plan_id_valid = refl

fingerprint_valid : validate_sha256 plan.fingerprint ≡ ok plan.fingerprint
unfolding validate_sha256
fingerprint_valid = refl

signed : sign checksum (approval_payload unsigned) ≡ ok token.signature
unfolding unsigned_token sign canonical_json ApprovalToken.core_dict
signed = refl

verify_approval-unsigned_token_example : verify_approval checksum (pos 200) token plan ≡ ok tt
unfolding unsigned_token ◌+ℤ◌
verify_approval-unsigned_token_example =
    verify_approval-unsigned_token checksum checksum_ascii (pos 200) (pos 110) (pos 300)
      (codes "approval_0123456789abcdef") (codes "ann") (codes "ann") plan token.signature ann
      five_minutes token_id_valid plan_id_valid fingerprint_valid signed (omega arith) (omega arith)
      refl
