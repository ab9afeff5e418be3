-- ===== src/Broker/Commit/Admitted.antt =====
-- What an admitted commit establishes.
use agent_workspace_guard.Base.{
  ◌≡◌, ◌⊎◌, refl, inl, inr, true, false, not, ◌||◌, ℕ, List, Text, codes, ◌==◌, nat_eq, list_eq,
  int_eq, arith, if◌then◌else◌, ℤ, ◌≤ℤ◌, ◌<ℤ◌, ◌-ℤ◌, Result, ok, approval_error, refuse, recast,
  ◌>>=◌, refuse-eq-ok, subst, ltb_ℤ, leb_ℤ, >>=-eq-ok, ok-injective,
}
use agent_workspace_guard.Paths.{FilePath}
use agent_workspace_guard.Json.Values.{Json}
use agent_workspace_guard.Json.Convert.{Builtins}
use agent_workspace_guard.Models.Enums.{
  Decision, allow, require_approval, deny, decision_eq, pending, plan_state_eq, TransactionState,
  planned, transaction_state_eq,
}
use agent_workspace_guard.Models.Transaction.{Transaction}
use agent_workspace_guard.Models.CommitPlan.{CommitPlan}
use agent_workspace_guard.Models.ApprovalToken.{ApprovalToken}
use agent_workspace_guard.Signer.{sign, verify, sign-of_verify}
use agent_workspace_guard.Validate.{validate_object_id, validate_text_field, validate_sha256}
use agent_workspace_guard.Broker.Records.{
  max_actor_length, max_approval_ttl_seconds, has_bad_lifetime,
}
use agent_workspace_guard.Broker.Load.{load_plan, load_transaction}
use agent_workspace_guard.Broker.Approval.{
  Approval, approval_payload, assert_plan_pending_and_fresh, verify_approval, resolve_approval,
}
use agent_workspace_guard.Broker.Commit.{View, check_approval, authorize, matches_transaction}

ltb_false : (a b : ℤ) → ltb_ℤ a b ≡ false → b ≤ℤ a
ltb_false a b h = ground arith

leb_false : (a b : ℤ) → leb_ℤ a b ≡ false → b <ℤ a
leb_false a b h = ground arith

accepted_both :
    (a b c d : Text) {u : Unit}
    → refuse (not (a == b) || not (c == d)) approval_error ≡ ok u
    → (a ≡ b) × (c ≡ d)
accepted_both a b c d h = ground arith

module _ (hmac : List ℕ → Text) where
  -- A token that approves a plan at a time.
  pub record IsApproval (now : ℤ) (token : ApprovalToken) (plan : CommitPlan) : Type 0 where
    pub signed : sign hmac (approval_payload token) ≡ ok token.signature
    pub same_plan : token.plan_id ≡ plan.plan_id
    pub same_fingerprint : token.plan_fingerprint ≡ plan.fingerprint
    pub live : now <ℤ token.expires_at
    pub inside_plan : token.expires_at ≤ℤ plan.expires_at
    pub short : (token.expires_at -ℤ token.created_at) ≤ℤ max_approval_ttl_seconds

  -- A token that passes the checks carries the broker's signature, names this plan and its
  -- fingerprint, has not expired, does not outlive the plan, and lasts at most 900 seconds.
  pub verify_approval-IsApproval :
      (now : ℤ) (token : ApprovalToken) (plan : CommitPlan)
      → verify_approval hmac now token plan ≡ ok tt
      → IsApproval now token plan
  unfolding verify_approval
  verify_approval-IsApproval now token plan h =
      let (a, e1, h1) = >>=-eq-ok (validate_object_id token.token_id (codes "approval")) _ h in
      let (b, e2, h2) = >>=-eq-ok (validate_object_id token.plan_id (codes "plan")) _ h1 in
      let (u, e3, h3) = >>=-eq-ok (verify hmac (approval_payload token) token.signature) _ h2 in
      let (c, e4, h4) =
        >>=-eq-ok (recast approval_error (validate_text_field token.actor max_actor_length)) _ h3 in
      let (f1, h5) = refuse-eq-ok (has_bad_lifetime token.created_at token.expires_at) _ _ h4 in
      let (f2, h6) =
        refuse-eq-ok (ltb_ℤ max_approval_ttl_seconds (token.expires_at -ℤ token.created_at)) _ _
          h5 in
      let (f3, h7) = refuse-eq-ok (leb_ℤ token.expires_at now) _ _ h6 in
      let (f4, h8) = refuse-eq-ok (ltb_ℤ plan.expires_at token.expires_at) _ _ h7 in
      let (d, e5, h9) =
        >>=-eq-ok (recast approval_error (validate_sha256 token.plan_fingerprint)) _ h8 in
      let (plan_part, fingerprint_part) =
        accepted_both token.plan_id plan.plan_id token.plan_fingerprint plan.fingerprint h9 in
      record {
        signed = sign-of_verify hmac (approval_payload token) token.signature e3;
        same_plan = plan_part;
        same_fingerprint = fingerprint_part;
        live = leb_false token.expires_at now f3;
        inside_plan = ltb_false plan.expires_at token.expires_at f4;
        short = ltb_false max_approval_ttl_seconds (token.expires_at -ℤ token.created_at) f2;
      }

-- A plan that may be committed: it is pending and has not expired, and the policy allows it or a
-- token approves it.
pub record IsAuthorized (py : Builtins) (hmac : List ℕ → Text) (state_root : FilePath)
    (read_json : FilePath → Result Json) (view : View) (approval : Approval) (plan : CommitPlan)
    (transaction : Transaction) : Type 0 where
  pub is_pending : plan.state ≡ pending
  pub is_fresh : view.now <ℤ plan.expires_at
  pub is_permitted :
      (plan.decision ≡ allow)
      ⊎ ((plan.decision ≡ require_approval)
          × (token : ApprovalToken) × (resolve_approval py state_root read_json approval ≡ ok token)
          × IsApproval hmac view.approval_now token plan)
  pub is_planned : transaction.state ≡ planned
  pub is_matching : matches_transaction plan transaction ≡ true

not_denied : (d : Decision) → (d == deny) ≡ false → (d ≡ allow) ⊎ (d ≡ require_approval)
unfolding decision_eq
not_denied allow h = inl refl
not_denied require_approval h = inr refl
not_denied deny h = cc

fresh_plan :
    (now : ℤ) (plan : CommitPlan) {u : Unit}
    → assert_plan_pending_and_fresh now plan ≡ ok u
    → (plan.state ≡ pending) × (now <ℤ plan.expires_at)
unfolding assert_plan_pending_and_fresh plan_state_eq
fresh_plan now plan h =
    let (state_part, rest) = refuse-eq-ok (not (plan.state == pending)) _ _ h in
    (ground arith, leb_false plan.expires_at now (ground arith))

is_planned_state : (s : TransactionState) → not (s == planned) ≡ false → s ≡ planned
is_planned_state s h = ground arith

module _ (py : Builtins) (sha256 hmac : List ℕ → Text) (state_root : FilePath)
    (read_json : FilePath → Result Json) where
  -- A plan that requires approval has one.
  check_approval-IsApproval :
      (now : ℤ) (approval : Approval) (plan : CommitPlan) {u : Unit}
      → plan.decision ≡ require_approval
      → check_approval py sha256 hmac state_root read_json now approval plan ≡ ok u
      → (token : ApprovalToken) × (resolve_approval py state_root read_json approval ≡ ok token)
        × IsApproval hmac now token plan
  unfolding check_approval decision_eq
  check_approval-IsApproval now approval plan needed h =
      let asked =
        subst
          (λ d.
            (if d == require_approval
              then (resolve_approval py state_root read_json approval >>= λ token.
                  verify_approval hmac now token plan)
              else ok tt)
            ≡ ok tt)
          needed h in
      let (token, found, verified) =
        >>=-eq-ok (resolve_approval py state_root read_json approval) _ asked in
      (token, found, verify_approval-IsApproval hmac now token plan verified)

  permitted :
      (now : ℤ) (approval : Approval) (plan : CommitPlan) {u : Unit}
      → (plan.decision == deny) ≡ false
      → check_approval py sha256 hmac state_root read_json now approval plan ≡ ok u
      → (plan.decision ≡ allow)
        ⊎ ((plan.decision ≡ require_approval)
            × (token : ApprovalToken) × (resolve_approval py state_root read_json approval
                ≡ ok token)
            × IsApproval hmac now token plan)
  permitted now approval plan allowed approved = elim (not_denied plan.decision allowed) [
    | inl free ↦ inl free
    | inr needed ↦
        let (token, found, valid) = check_approval-IsApproval now approval plan needed approved in
        inr (needed, token, found, valid)
  ]

  -- A commit passes its first checks only for a loaded plan that is pending and has not expired and
  -- that the policy allows or a live, signed token approves under this fingerprint; its loaded
  -- transaction is planned and matches it.
  pub authorize-IsAuthorized :
      (view : View) (plan_id : Text) (approval : Approval) (plan : CommitPlan)
      (transaction : Transaction)
      → authorize py sha256 hmac state_root read_json view plan_id approval ≡ ok (plan, transaction)
      → (load_plan py sha256 hmac state_root read_json plan_id ≡ ok plan)
        × (load_transaction py sha256 hmac state_root read_json plan.transaction_id
            ≡ ok transaction)
        × IsAuthorized py hmac state_root read_json view approval plan transaction
  unfolding authorize assert_plan_pending_and_fresh
  authorize-IsAuthorized view plan_id approval plan transaction h =
      let (p, loaded, h1) = >>=-eq-ok (load_plan py sha256 hmac state_root read_json plan_id) _ h in
      let (u, fresh, h2) = >>=-eq-ok (assert_plan_pending_and_fresh view.now p) _ h1 in
      let (allowed, h3) = refuse-eq-ok (p.decision == deny) _ _ h2 in
      let (v, approved, h4) =
        >>=-eq-ok (check_approval py sha256 hmac state_root read_json view.approval_now approval p)
          _ h3 in
      let (t, found, h5) =
        >>=-eq-ok (load_transaction py sha256 hmac state_root read_json p.transaction_id) _ h4 in
      let (state_part, h6) = refuse-eq-ok (not (t.state == planned)) _ _ h5 in
      let (match_part, h7) = refuse-eq-ok (not (matches_transaction p t)) _ _ h6 in
      let (is_pending, is_fresh) = fresh_plan view.now p fresh in
      subst
        (λ (q : CommitPlan × Transaction).
          (load_plan py sha256 hmac state_root read_json plan_id ≡ ok q.0)
          × (load_transaction py sha256 hmac state_root read_json q.0.transaction_id ≡ ok q.1)
          × IsAuthorized py hmac state_root read_json view approval q.0 q.1)
        (ok-injective h7)
        (
          loaded,
          found,
          record {
            is_pending = is_pending;
            is_fresh = is_fresh;
            is_permitted = permitted view.approval_now approval p allowed approved;
            is_planned = is_planned_state t.state state_part;
            is_matching = ground (arith, match_part);
          },
        )
