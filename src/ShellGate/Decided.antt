-- ===== src/ShellGate/Decided.antt =====
-- What the decision and the findings of an inspection say.
use agent_workspace_guard.Base.{
  ◌≡◌, refl, Bool, Bool-cases, inl, inr, true, false, not, ◌&&◌, ◌||◌, Text, codes, any, ◌==◌,
  eq_sound, list_eq, nat_eq, arith, if◌then◌else◌,
}
use agent_workspace_guard.Host.{CaseTables}
use agent_workspace_guard.Models.Enums.{Decision, allow, require_approval, deny, decision_eq}
use agent_workspace_guard.Models.Finding.{Finding}
use agent_workspace_guard.ShellGate.{
  Engine, Payload, judge_payload, is_empty, is_too_large, raw, is_reserved, is_destructive, Verdict,
  judge, redirected, verdict, inspect_shell_command, is_foreign_redirection, rejected,
  empty_command, command_too_large,
}
use agent_workspace_guard.ShellGate.Patterns

-- Both values of a test.
abbrev both : (Bool → Bool) → Bool
both p = p true && p false

both_lem : (p : Bool → Bool) → both p ≡ true → (b : Bool) → p b ≡ true
both_lem p h true = ground arith
both_lem p h false = ground arith

-- All values of the six tests of an inspection.
abbrev all_tests : (Verdict → Bool → Bool → Bool → Bool → Bool) → Bool
all_tests p = both λ a.
    both λ b. both λ c. both λ d. both λ e. both λ f. p (redirected f (judge a b c d e)) a b c d

all_tests_lem :
    (p : Verdict → Bool → Bool → Bool → Bool → Bool)
    → all_tests p ≡ true
    → (a b c d e f : Bool) → p (redirected f (judge a b c d e)) a b c d ≡ true
all_tests_lem p h a b c d e f =
    let h0 =
      both_lem
        (λ a.
          both
            λ b. both λ c. both λ d. both λ e. both λ f. p (redirected f (judge a b c d e)) a b c d)
        h a in
    let h1 =
      both_lem
        (λ b. both λ c. both λ d. both λ e. both λ f. p (redirected f (judge a b c d e)) a b c d) h0
        b in
    let h2 =
      both_lem (λ c. both λ d. both λ e. both λ f. p (redirected f (judge a b c d e)) a b c d) h1
        c in
    let h3 = both_lem (λ d. both λ e. both λ f. p (redirected f (judge a b c d e)) a b c d) h2 d in
    let h4 = both_lem (λ e. both λ f. p (redirected f (judge a b c d e)) a b c d) h3 e in
    both_lem (λ f. p (redirected f (judge a b c d e)) a b c d) h4 f

abbrev pub is_error : Finding → Bool
is_error f = f.severity == codes "error"

-- An independent description of the decision.
abbrev pub decided : Bool → Bool → Bool → Bool → Decision
decided reserved escape destructive catastrophic =
    if reserved || escape || (destructive && catastrophic)
    then deny
    else if destructive
    then require_approval
    else allow

abbrev same_test : Bool → Bool → Bool
same_test a b = if a then b else not b

same_test_lem : (a b : Bool) → same_test a b ≡ true → a ≡ b
same_test_lem a b h = ground arith

test_decided : all_tests (λ v a b c d. v.decision == decided a b c d) ≡ true
unfolding judge list_eq nat_eq decision_eq
test_decided = refl

test_errors :
    all_tests (λ v a b c d. same_test (v.decision == deny) (any is_error v.findings)) ≡ true
unfolding judge list_eq nat_eq decision_eq
test_errors = refl

-- The payload is not looked into.
abbrev pub is_refused : Payload → Bool
is_refused payload = is_empty payload || is_too_large payload

module _ (tables : CaseTables) (engine : Engine) (payload : Payload) (shell : Text) where
  -- By cases: refused, or judged.
  by_verdict :
      (P : Verdict → Type 0)
      → (is_empty payload ≡ true → P (rejected empty_command))
      → (is_empty payload ≡ false → is_too_large payload ≡ true → P (rejected command_too_large))
      → (is_empty payload ≡ false
          → is_too_large payload ≡ false
          → P (
              redirected
                (is_foreign_redirection tables shell (raw payload))
                (judge_payload engine payload)))
      → P (verdict tables engine payload shell)
  unfolding verdict
  by_verdict P empty large judged = elim (Bool-cases (is_empty payload)) [
    | inl e ↦ rw e (empty e)
    | inr e ↦ elim (Bool-cases (is_too_large payload)) [
      | inl l ↦ rw (e, l) (large e l)
      | inr l ↦ rw (e, l) (judged e l)
    ]
  ]

  by_judgement :
      (p : Verdict → Bool → Bool → Bool → Bool → Bool)
      → all_tests p ≡ true
      → p
          (redirected
            (is_foreign_redirection tables shell (raw payload))
            (judge_payload engine payload))
          (is_reserved engine (raw payload))
          (engine.search Patterns.host_escape (raw payload))
          (is_destructive engine (raw payload))
          (engine.search Patterns.catastrophic_target (raw payload))
        ≡ true
  by_judgement p h = all_tests_lem p h _ _ _ _ _ _

  -- The decision, from the searches: a payload is denied exactly if it is empty, too large, assigns a
  -- reserved variable, reaches for the host, or destroys a catastrophic target; any other destruction
  -- needs an approval.
  pub inspect_shell_command-decision :
      (inspect_shell_command tables engine payload shell).decision ≡ (
        if is_refused payload
        then deny
        else decided
            (is_reserved engine (raw payload))
            (engine.search Patterns.host_escape (raw payload))
            (is_destructive engine (raw payload))
            (engine.search Patterns.catastrophic_target (raw payload)))
  unfolding inspect_shell_command
  inspect_shell_command-decision =
      by_verdict
        (λ v. v.decision ≡ (
          if is_refused payload
          then deny
          else decided (is_reserved engine (raw payload))
              (engine.search Patterns.host_escape (raw payload))
              (is_destructive engine (raw payload))
              (engine.search Patterns.catastrophic_target (raw payload))))
        (λ e. rw e refl) (λ e l. rw (e, l) refl)
        (λ e l.
          rw (e, l)
            (eq_sound _ _ (by_judgement (λ v a b c d. v.decision == decided a b c d) test_decided)))

  -- An inspection denies exactly if one of its findings is an error.
  pub inspect_shell_command-errors :
      ((inspect_shell_command tables engine payload shell).decision == deny)
      ≡ any is_error (inspect_shell_command tables engine payload shell).findings
  unfolding inspect_shell_command list_eq nat_eq decision_eq
  inspect_shell_command-errors =
      by_verdict (λ v. (v.decision == deny) ≡ any is_error v.findings) (λ e. refl) (λ e l. refl)
        (λ e l. same_test_lem _ _ (
          by_judgement (λ v a b c d. same_test (v.decision == deny) (any is_error v.findings))
            test_errors))
