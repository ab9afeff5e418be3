-- ===== src/Policy/Evaluate/Outcome.antt =====
-- The decision of `GuardPolicy.evaluate` and its findings, in terms of the changes.
use agent_workspace_guard.Base.{
  ◌≡◌, refl, sym, ap, ok-injective, ◌∙◌, ℕ, Bool, Bool-cases, inl, inr, false, not, ◌&&◌, ◌||◌,
  nat_eq, list_eq, List, length, any, arith, if◌then◌else◌, Text, ℤ, zero_add_ℤ, ok, >>=-eq-ok,
}
use agent_workspace_guard.Host.{CaseTables, Floats}
use agent_workspace_guard.Models.Enums.{Decision, allow, require_approval, deny, delete}
use agent_workspace_guard.Models.TreeManifest.{TreeManifest}
use agent_workspace_guard.Models.Change.{Change}
use agent_workspace_guard.Models.Finding.{Finding}
use agent_workspace_guard.Policy.Config.{GuardPolicy}
use agent_workspace_guard.Policy.Tally.{Tally, empty_tally, tally_changes}
use agent_workspace_guard.Policy.Evaluate.{
  decide, is_mass_delete, check_mass_delete, is_over_budget, check_change_budget, is_large_addition,
  check_add_budget, check_limits, evaluate,
}
use agent_workspace_guard.Policy.Evaluate.Flags.{
  Pass, same-Pass, join-Pass, has_error, error_added, warning_added, is_hard, is_risky,
  Pass-changes,
}
use agent_workspace_guard.Policy.Evaluate.Counts.{count_kind, sum_added_bytes, tally_changes_totals}

module _ (floats : Floats) (policy : GuardPolicy floats) where
  -- The plan as a whole deletes too much.
  abbrev pub deletes_too_much : TreeManifest → List Change → Bool
  deletes_too_much baseline changes =
      is_mass_delete floats policy (count_kind delete changes) (length baseline.entries)
      && not policy.allow_mass_delete

  Pass-mass_delete :
      (deleted baseline : ℕ) (t : Tally)
      → Pass
          (is_mass_delete floats policy deleted baseline && not policy.allow_mass_delete)
          false
          t
          (check_mass_delete floats policy deleted baseline t)
  unfolding check_mass_delete list_eq nat_eq
  Pass-mass_delete deleted baseline t =
      elim (Bool-cases
        (is_mass_delete floats policy deleted baseline && not policy.allow_mass_delete)) [
          | inl k ↦ rw k (record {
            hard_flag = ground arith;
            risky_flag = ground arith;
            explained = λ e. error_added t.findings _ refl;
          })
          | inr k ↦
              rw k
                (record { hard_flag = ground arith; risky_flag = ground arith; explained = λ e. e })
        ]

  Pass-change_budget :
      (changes : List Change) (t : Tally)
      → Pass
          (is_over_budget floats policy changes)
          false
          t
          (check_change_budget floats policy changes t)
  unfolding check_change_budget list_eq nat_eq
  Pass-change_budget changes t = elim (Bool-cases (is_over_budget floats policy changes)) [
    | inl k ↦ rw k (record {
      hard_flag = ground arith;
      risky_flag = ground arith;
      explained = λ e. error_added t.findings _ refl;
    })
    | inr k ↦
        rw k (record { hard_flag = ground arith; risky_flag = ground arith; explained = λ e. e })
  ]

  Pass-add_budget :
      (changes : List Change) (t : Tally)
      → Pass false
          (is_large_addition floats policy changes t.added_bytes)
          t
          (check_add_budget floats policy changes t)
  unfolding check_add_budget list_eq nat_eq
  Pass-add_budget changes t =
      elim (Bool-cases (is_large_addition floats policy changes t.added_bytes)) [
        | inl k ↦ rw k (record {
          hard_flag = ground arith;
          risky_flag = ground arith;
          explained = λ e. warning_added t.findings _ refl ∙ e;
        })
        | inr k ↦
            rw k
              (record { hard_flag = ground arith; risky_flag = ground arith; explained = λ e. e })
      ]

  added_bytes-check_mass_delete :
      (deleted baseline : ℕ) (t : Tally)
      → (check_mass_delete floats policy deleted baseline t).added_bytes ≡ t.added_bytes
  unfolding check_mass_delete
  added_bytes-check_mass_delete deleted baseline t =
      elim (Bool-cases
        (is_mass_delete floats policy deleted baseline && not policy.allow_mass_delete)) [
          | inl k ↦ rw k
          | inr k ↦ rw k
        ]

  added_bytes-check_change_budget :
      (changes : List Change) (t : Tally)
      → (check_change_budget floats policy changes t).added_bytes ≡ t.added_bytes
  unfolding check_change_budget
  added_bytes-check_change_budget changes t =
      elim (Bool-cases (is_over_budget floats policy changes)) [ inl k ↦ rw k | inr k ↦ rw k ]

  -- The flags after the limits on the whole plan.
  Pass-limits :
      (baseline : TreeManifest) (changes : List Change) (t : Tally)
      → Pass
          (is_mass_delete floats policy t.counts.deleted (length baseline.entries)
              && not policy.allow_mass_delete
            || is_over_budget floats policy changes)
          (is_large_addition floats policy changes t.added_bytes)
          t
          (check_limits floats policy baseline changes t)
  unfolding check_limits
  Pass-limits baseline changes t =
      let n = length baseline.entries in
      let massed = check_mass_delete floats policy t.counts.deleted n t in
      let counted = check_change_budget floats policy changes massed in
      let e : counted.added_bytes ≡ t.added_bytes =
        added_bytes-check_change_budget changes massed
        ∙ added_bytes-check_mass_delete t.counts.deleted n t in
      let last = Pass-add_budget changes counted in
      same-Pass _ _ _ _ (ground arith) (ap (is_large_addition floats policy changes) e) (
        join-Pass _ _ _ _ (Pass-mass_delete t.counts.deleted n t)
          (join-Pass _ _ _ _ (Pass-change_budget changes massed) last))

module _ (cases : CaseTables) (floats : Floats) (policy : GuardPolicy floats) where
  -- What blocks a plan under the policy in force.
  abbrev pub is_blocked : TreeManifest → List Change → Bool
  is_blocked baseline changes =
      any (is_hard cases floats policy) changes
      || (deletes_too_much floats policy baseline changes || is_over_budget floats policy changes)

  abbrev pub needs_review : List Change → Bool
  needs_review changes =
      any (is_risky cases floats policy) changes
      || is_large_addition floats policy changes (sum_added_bytes changes)

  abbrev expected_decision : Bool → Bool → Decision
  expected_decision blocked review =
      if blocked then deny else if review then require_approval else allow

  -- The variables of `evaluate` when it decides.
  Pass-evaluate :
      (baseline : TreeManifest) (changes : List Change) (t : Tally)
      → tally_changes cases floats policy changes empty_tally ≡ ok t
      → Pass
          (is_blocked baseline changes)
          (needs_review changes)
          empty_tally
          (check_limits floats policy baseline changes t)
  Pass-evaluate baseline changes t h =
      let totals = tally_changes_totals cases floats policy changes empty_tally t h in
      let deleted : t.counts.deleted ≡ count_kind delete changes = omega (arith, totals.2) in
      let bytes : t.added_bytes ≡ sum_added_bytes changes = totals.4 ∙ zero_add_ℤ _ in
      same-Pass _ _ _ _ (rw deleted refl) (rw bytes refl) (
        join-Pass _ _ _ _ (Pass-changes cases floats policy changes empty_tally t h)
          (Pass-limits floats policy baseline changes t))

  decide_flags :
      (blocked review : Bool) (t : Tally)
      → Pass blocked review empty_tally t
      → decide t ≡ expected_decision blocked review
  unfolding decide
  decide_flags blocked review t p = ground (arith, p.hard_flag, p.risky_flag)

  explained_flags :
      (blocked review : Bool) (t : Tally)
      → Pass blocked review empty_tally t
      → has_error t.findings ≡ blocked
  explained_flags blocked review t p = p.explained refl ∙ p.hard_flag

  -- The decision is a denial if the plan is blocked, else a request for approval if it needs
  -- review, else a permission; and the findings hold an error exactly if the plan is blocked.
  pub evaluate_decision :
      (baseline staged : TreeManifest) (changes : List Change) (decision : Decision)
      (findings : List Finding) (summary : List (Text × ℤ))
      → evaluate cases floats policy baseline staged changes ≡ ok (decision, findings, summary)
      → (decision ≡ (
          if is_blocked baseline changes
          then deny
          else if needs_review changes
          then require_approval
          else allow))
        × (has_error findings ≡ is_blocked baseline changes)
  unfolding evaluate
  evaluate_decision baseline staged changes decision findings summary h =
      let (t, looped, rest) =
        >>=-eq-ok (tally_changes cases floats policy changes empty_tally) _ h in
      let e = ok-injective rest in
      let flags = Pass-evaluate baseline changes t looped in
      (
        ap (λ (x : Decision × List Finding × List (Text × ℤ)). x.0) (sym e)
            ∙ decide_flags _ _ _ flags,
        ap (λ (x : Decision × List Finding × List (Text × ℤ)). has_error x.1) (sym e)
            ∙ explained_flags _ _ _ flags,
      )
