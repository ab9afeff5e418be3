-- ===== src/Broker/Commit/Reevaluated.antt =====
-- The second evaluation of an admitted plan.
use agent_workspace_guard.Base.{
  ◌≡◌, refl, sym, ap, ◌∙◌, eq_sound, Bool, true, false, not, ◌&&◌, ℕ, List, [], ◌∷◌, map, Text,
  ◌==◌, nat_eq, list_eq, int_eq, arith, Result, ok, >>=-eq-ok, refuse-eq-ok, ok-injective,
}
use agent_workspace_guard.Host.{CaseTables, Floats}
use agent_workspace_guard.Json.Values.{json_eq}
use agent_workspace_guard.Models.Enums.{decision_eq}
use agent_workspace_guard.Models.Change
use agent_workspace_guard.Models.Change.{Change}
use agent_workspace_guard.Models.Finding
use agent_workspace_guard.Models.Finding.{Finding}
use agent_workspace_guard.Models.Signing.{idle}
use agent_workspace_guard.Models.TreeManifest.{TreeManifest}
use agent_workspace_guard.Models.Transaction.{Transaction}
use agent_workspace_guard.Models.CommitPlan.{CommitPlan}
use agent_workspace_guard.Manifest.{diff_manifests}
use agent_workspace_guard.Policy.Config.{GuardPolicy, fingerprint}
use agent_workspace_guard.Policy.Evaluate.{Evaluation, evaluate}
use agent_workspace_guard.Broker.Commit.{View, check_result, matches_evaluation}

-- The plan is the one that the policy would make now, of the trees that are there now.
pub record IsCurrent (sha256 : List ℕ → Text) (cases : CaseTables) (floats : Floats)
    (policy : GuardPolicy floats) (view : View) (plan : CommitPlan) (baseline : TreeManifest)
    : Type 0 where
  pub real : TreeManifest
  pub staged : TreeManifest
  pub outcome : Evaluation
  pub real_found : view.current_real ≡ ok real
  pub staged_found : view.current_staged ≡ ok staged
  pub same_real : real.digest ≡ plan.baseline_digest
  pub same_staged : staged.digest ≡ plan.staged_digest
  pub same_policy : fingerprint floats sha256 policy ≡ ok plan.policy_digest
  pub same_changes : diff_manifests baseline staged ≡ plan.changes
  pub evaluated : evaluate cases floats policy baseline staged plan.changes ≡ ok outcome
  pub same_decision : outcome.0 ≡ plan.decision
  pub same_findings : outcome.1 ≡ plan.findings

-- What is written determines what was written.
same_of_map {ℓ κ} :
    {A : Type ℓ} {B : Type κ} (write : A → B) (read : B → Result A)
    → ((x : A) → read (write x) ≡ ok x)
    → (xs ys : List A) → map write xs ≡ map write ys
    → xs ≡ ys
same_of_map write read back [] [] h = refl
same_of_map write read back [] (y ∷ ys) h = cc
same_of_map write read back (x ∷ xs) [] h = cc
same_of_map write read back (x ∷ xs) (y ∷ ys) h =
    let first : write x ≡ write y = cc in
    let rest : map write xs ≡ map write ys = cc in
    let head = ok-injective (sym (back x) ∙ (ap read first ∙ back y)) in
    let tail = same_of_map write read back xs ys rest in cc

all_four : (a b c d : Bool) → (a && b && c && d) ≡ true → (a ≡ true) × (b ≡ true) × (c ≡ true)
all_four a b c d h = ground arith

matched :
    (plan : CommitPlan) (changes : List Change) (e : Evaluation)
    → matches_evaluation plan changes e ≡ true
    → (changes ≡ plan.changes) × (e.0 ≡ plan.decision) × (e.1 ≡ plan.findings)
unfolding matches_evaluation
matched plan changes (decision, findings, summary) h =
    let (a, b, c) = all_four _ _ _ _ h in
    (
      same_of_map Change.to_dict (Change.from_dict idle) (Change.from_dict-to_dict idle) changes
          plan.changes (eq_sound _ _ a),
      eq_sound _ _ b,
      same_of_map Finding.to_dict (Finding.from_dict idle) (Finding.from_dict-to_dict idle) findings
          plan.findings (eq_sound _ _ c),
    )

refused : (a b : Text) → not (a == b) ≡ false → a ≡ b
refused a b h = eq_sound a b (ground arith)

is_true : (b : Bool) → not b ≡ false → b ≡ true
is_true b h = ground arith

module _ (sha256 : List ℕ → Text) (cases : CaseTables) (floats : Floats)
    (policy : GuardPolicy floats) where
  -- The checks under the lock pass only if the two trees are those of the plan, the policy is the
  -- one that it names, and the policy, asked again about the trees, gives its changes, its decision
  -- and its findings.
  pub check_result-IsCurrent :
      (view : View) (plan : CommitPlan) (transaction : Transaction) (baseline : TreeManifest)
      → check_result sha256 cases floats policy view plan transaction baseline ≡ ok tt
      → IsCurrent sha256 cases floats policy view plan baseline
  unfolding check_result
  check_result-IsCurrent view plan transaction baseline h =
      let (real, e1, h1) = >>=-eq-ok view.current_real _ h in
      let (staged, e2, h2) = >>=-eq-ok view.current_staged _ h1 in
      let (f1, h3) = refuse-eq-ok (not (real.digest == plan.baseline_digest)) _ _ h2 in
      let (f2, h4) = refuse-eq-ok (not (staged.digest == plan.staged_digest)) _ _ h3 in
      let (current_policy, e3, h5) = >>=-eq-ok (fingerprint floats sha256 policy) _ h4 in
      let (f3, h6) = refuse-eq-ok (not (plan.policy_digest == current_policy)) _ _ h5 in
      let changes = diff_manifests baseline staged in
      let (outcome, e4, h7) =
        >>=-eq-ok (evaluate cases floats policy baseline staged changes) _ h6 in
      let (f4, h8) = refuse-eq-ok (not (matches_evaluation plan changes outcome)) _ _ h7 in
      let (same_changes, same_decision, same_findings) =
        matched plan changes outcome (is_true _ f4) in
      record {
        real = real;
        staged = staged;
        outcome = outcome;
        real_found = e1;
        staged_found = e2;
        same_real = refused _ _ f1;
        same_staged = refused _ _ f2;
        same_policy = e3 ∙ ap ok (sym (refused _ _ f3));
        same_changes = same_changes;
        evaluated = ap (evaluate cases floats policy baseline staged) (sym same_changes) ∙ e4;
        same_decision = same_decision;
        same_findings = same_findings;
      }
