-- ===== src/Broker/Commit/Permitted.antt =====
-- `admit_commit` and the policy of src/agent_workspace_guard/policy.py.
use agent_workspace_guard.Base.{
  ◌≡◌, ◌≢◌, ◌⊎◌, inl, inr, refl, sym, ◌∙◌, subst, Bool, true, false, ℕ, List, Text, if◌then◌else◌,
  Result, ok, >>=-eq-ok, ok-injective,
}
use agent_workspace_guard.Paths.{FilePath}
use agent_workspace_guard.Host.{CaseTables, Floats}
use agent_workspace_guard.Json.Values.{Json}
use agent_workspace_guard.Json.Convert.{Builtins}
use agent_workspace_guard.Models.Enums.{Decision, allow, require_approval, deny, decision_eq}
use agent_workspace_guard.Models.TreeManifest.{TreeManifest}
use agent_workspace_guard.Models.Transaction.{Transaction}
use agent_workspace_guard.Models.CommitPlan.{CommitPlan}
use agent_workspace_guard.Models.ApprovalToken.{ApprovalToken}
use agent_workspace_guard.Manifest.{diff_manifests}
use agent_workspace_guard.Policy.Config.{GuardPolicy}
use agent_workspace_guard.Policy.Evaluate.Outcome.{is_blocked, needs_review, evaluate_decision}
use agent_workspace_guard.Broker.Load.{load_baseline}
use agent_workspace_guard.Broker.Approval.{Approval, resolve_approval}
use agent_workspace_guard.Broker.Commit.{View, authorize, check_result, admit_commit}
use agent_workspace_guard.Broker.Commit.Admitted.{IsApproval, authorize-IsAuthorized}
use agent_workspace_guard.Broker.Commit.Reevaluated.{check_result-IsCurrent}

-- A decision that is no denial, read back to the two tests of the policy.
settled :
    {P : Type 0} (blocked review : Bool) (d : Decision)
    → d ≡ (if blocked then deny else if review then require_approval else allow)
    → (d ≡ allow) ⊎ P
    → (d ≢ deny)
    → (blocked ≡ false) × (review ≡ true → P)
settled true review d e k free = absurd (free e)
settled false true d e (inl k) free = cc
settled false true d e (inr p) free = (refl, λ _. p)
settled false false d e k free = (refl, λ h. cc)

module _ (py : Builtins) (sha256 hmac : List ℕ → Text) (state_root : FilePath)
    (read_json : FilePath → Result Json) (resolve : FilePath → FilePath) (cases : CaseTables)
    (floats : Floats) (policy : GuardPolicy floats) where
  Permission : CommitPlan → View → Approval → Type 0
  Permission plan view approval =
      (plan.decision ≡ allow)
      ⊎ ((plan.decision ≡ require_approval)
          × (token : ApprovalToken) × (resolve_approval py state_root read_json approval ≡ ok token)
          × IsApproval hmac view.approval_now token plan)

  approval_of :
      (plan : CommitPlan) (view : View) (approval : Approval)
      → Permission plan view approval
      → (plan.decision ≡ allow)
        ⊎ ((token : ApprovalToken) × (resolve_approval py state_root read_json approval ≡ ok token)
            × IsApproval hmac view.approval_now token plan)
  unfolding Permission
  approval_of plan view approval (inl free) = inl free
  approval_of plan view approval (inr (needed, token, found, valid)) = inr (token, found, valid)

  no_denial :
      (plan : CommitPlan) (view : View) (approval : Approval)
      → Permission plan view approval
      → plan.decision ≢ deny
  unfolding Permission
  no_denial plan view approval (inl free) e = cc
  no_denial plan view approval (inr (needed, token, found, valid)) e = cc

  admit_commit_inv :
      (view : View) (plan_id : Text) (approval : Approval) (plan : CommitPlan)
      (transaction : Transaction) (baseline : TreeManifest)
      → admit_commit py sha256 hmac state_root read_json resolve cases floats policy view plan_id
          approval
        ≡ ok (plan, transaction, baseline)
      → (authorize py sha256 hmac state_root read_json view plan_id approval
          ≡ ok (plan, transaction))
        × (check_result sha256 cases floats policy view plan transaction baseline ≡ ok tt)
  unfolding admit_commit
  admit_commit_inv view plan_id approval plan transaction baseline h =
      let (q, e1, h1) =
        >>=-eq-ok (authorize py sha256 hmac state_root read_json view plan_id approval) _ h in
      let (b, e2, h2) =
        >>=-eq-ok (load_baseline py sha256 hmac state_root read_json resolve q.1) _ h1 in
      let (u, e3, h3) = >>=-eq-ok (check_result sha256 cases floats policy view q.0 q.1 b) _ h2 in
      subst
        (λ (r : CommitPlan × Transaction × TreeManifest).
          (authorize py sha256 hmac state_root read_json view plan_id approval ≡ ok (r.0, r.1))
          × (check_result sha256 cases floats policy view r.0 r.1 r.2 ≡ ok tt))
        (ok-injective h3) (e1, e3)

  -- A commit is admitted only if the worktree that is there differs from the baseline by the plan's
  -- changes, the policy in force does not block them, and, should they need review, a live token
  -- signed for this plan approves them.
  pub admit_commit_safe :
      (view : View) (plan_id : Text) (approval : Approval) (plan : CommitPlan)
      (transaction : Transaction) (baseline : TreeManifest)
      → admit_commit py sha256 hmac state_root read_json resolve cases floats policy view plan_id
          approval
        ≡ ok (plan, transaction, baseline)
      → ((staged : TreeManifest) × (view.current_staged ≡ ok staged)
          × (diff_manifests baseline staged ≡ plan.changes))
        × (is_blocked cases floats policy baseline plan.changes ≡ false)
        × (needs_review cases floats policy plan.changes ≡ true
            → (token : ApprovalToken) × (resolve_approval py state_root read_json approval
                ≡ ok token)
              × IsApproval hmac view.approval_now token plan)
  unfolding Permission
  admit_commit_safe view plan_id approval plan transaction baseline h =
      let (first, second) = admit_commit_inv view plan_id approval plan transaction baseline h in
      let authorized =
        (authorize-IsAuthorized py sha256 hmac state_root read_json view plan_id approval plan
          transaction first).2 in
      let current =
        check_result-IsCurrent sha256 cases floats policy view plan transaction baseline second in
      let (decided, explained) =
        evaluate_decision cases floats policy baseline current.staged plan.changes current.outcome.0
          current.outcome.1 current.outcome.2 current.evaluated in
      let same = sym current.same_decision ∙ decided in
      let (unblocked, approved) =
        settled (is_blocked cases floats policy baseline plan.changes)
          (needs_review cases floats policy plan.changes) plan.decision same
          (approval_of plan view approval authorized.is_permitted)
          (no_denial plan view approval authorized.is_permitted) in
      ((current.staged, current.staged_found, current.same_changes), unblocked, approved)
