-- ===== src/Policy/Evaluate.antt =====
-- The end of `GuardPolicy.evaluate` of src/agent_workspace_guard/policy.py: the limits on the whole
-- plan, the decision and the summary.
pub mod Flags
pub mod Counts
pub mod Outcome
use agent_workspace_guard.Base.{
  ◌≡◌, ℕ, ◌+◌, Bool, true, false, not, ◌&&◌, ◌||◌, Option, none, some, List, [], ◌∷◌, ◌++◌, map,
  Text, codes, ◌==◌, nat_eq, list_eq, all, length, ltb, if◌then◌else◌, ℤ, pos, negsuc, suc, ltb_ℤ,
  leb_ℤ, Result, ok, err, ◌>>=◌, show_nat, show_int, show_grouped,
}
use agent_workspace_guard.Host.{CaseTables, Floats}
use agent_workspace_guard.Models.Enums.{
  Decision, allow, require_approval, deny, ChangeKind, add, change_kind_eq,
}
use agent_workspace_guard.Models.TreeManifest.{TreeManifest}
use agent_workspace_guard.Models.Change.{Change}
use agent_workspace_guard.Models.Finding.{Finding}
use agent_workspace_guard.Policy.Config.{GuardPolicy}
use agent_workspace_guard.Policy.Tally.{Tally, empty_tally, tally_changes}

abbrev pub Evaluation : Type 0
Evaluation = Decision × List Finding × List (Text × ℤ)

abbrev plan_finding : Text → Text → Text → Finding
plan_finding code severity message = record {
  code = code;
  severity = severity;
  message = message;
  path = none;
}

unfoldable pub decide : Tally → Decision
decide t = if t.hard_deny then deny else if t.destructive then require_approval else allow

abbrev is_add : Change → Bool
is_add change = change.kind == add

-- `bool(changes) and all(change.kind is ChangeKind.ADD for change in changes)`
unfoldable pub is_add_only : List Change → Bool
unfolding change_kind_eq
is_add_only [] = false
is_add_only changes = all is_add changes

-- `f"{n:,}"` of a limit
abbrev show_limit : ℤ → Text
show_limit (pos n) = show_grouped n
show_limit (negsuc n) = b'-' ∷ show_grouped (suc n)

module _ (floats : Floats) (policy : GuardPolicy floats) where
  -- The division raises where the baseline has no entry. A diff deletes entries of its baseline only, so
  -- the second test fails first there; the ratio is total here.
  unfoldable pub is_mass_delete : ℕ → ℕ → Bool
  is_mass_delete delete_count baseline_count =
      leb_ℤ policy.mass_delete_min_baseline_entries (pos baseline_count)
      && ltb 0 delete_count
      && (leb_ℤ policy.hard_delete_entries (pos delete_count)
          || floats.at_least (floats.ratio delete_count baseline_count) policy.hard_delete_fraction)

  unfoldable pub check_mass_delete : ℕ → ℕ → Tally → Tally
  unfolding is_mass_delete
  check_mass_delete delete_count baseline_count t =
      if is_mass_delete delete_count baseline_count && not policy.allow_mass_delete
      then record t {
        hard_deny = true;
        findings =
            t.findings
            ++ (plan_finding (codes "mass_deletion_denied") (codes "error") (
                  codes "plan deletes "
                  ++ (show_nat delete_count
                      ++ (codes " of "
                          ++ (show_nat baseline_count
                              ++ codes
                                  " tracked entries; a separate break-glass policy is required"))))
                ∷ []);
      }
      else t

  unfoldable pub is_over_budget : List Change → Bool
  is_over_budget changes = ltb_ℤ policy.max_total_changes (pos (length changes))

  unfoldable pub check_change_budget : List Change → Tally → Tally
  unfolding is_over_budget
  check_change_budget changes t =
      if is_over_budget changes
      then record t {
        hard_deny = true;
        findings =
            t.findings
            ++ (plan_finding (codes "change_budget_exceeded") (codes "error") (
                  codes "plan contains "
                  ++ (show_grouped (length changes)
                      ++ (codes " changes, above the "
                          ++ (show_limit policy.max_total_changes ++ codes " hard limit"))))
                ∷ []);
      }
      else t

  unfoldable pub is_large_addition : List Change → ℤ → Bool
  unfolding is_add_only
  is_large_addition changes added_bytes =
      is_add_only changes
      && (ltb_ℤ policy.auto_add_max_entries (pos (length changes))
          || ltb_ℤ policy.auto_add_max_bytes added_bytes)

  unfoldable pub check_add_budget : List Change → Tally → Tally
  unfolding is_large_addition
  check_add_budget changes t =
      if is_large_addition changes t.added_bytes
      then record t {
        destructive = true;
        findings =
            t.findings
            ++ (plan_finding (codes "automatic_add_budget_exceeded") (codes "warning")
                  (codes "large add-only plans require review before commit")
                ∷ []);
      }
      else t

  -- `int((delete_count / baseline_count) * 1_000_000) if baseline_count else 0`
  unfoldable pub delete_fraction_ppm : ℕ → ℕ → ℤ
  unfolding nat_eq
  delete_fraction_ppm delete_count baseline_count =
      if baseline_count == 0 then pos 0 else floats.ppm (floats.ratio delete_count baseline_count)

  unfoldable pub summarize : TreeManifest → TreeManifest → List Change → Tally → List (Text × ℤ)
  unfolding delete_fraction_ppm
  summarize baseline staged changes t =
      (codes "total_changes", pos (length changes))
      ∷ (codes "added", pos t.counts.added)
      ∷ (codes "modified", pos t.counts.modified)
      ∷ (codes "deleted", pos t.counts.deleted)
      ∷ (codes "type_changed", pos t.counts.type_changed)
      ∷ (codes "added_bytes", t.added_bytes)
      ∷ (codes "replacement_bytes", t.replacement_bytes)
      ∷ (codes "removed_bytes", t.removed_bytes)
      ∷ (codes "baseline_entries", pos (length baseline.entries))
      ∷ (codes "staged_entries", pos (length staged.entries))
      ∷ (
        codes "delete_fraction_ppm",
        delete_fraction_ppm t.counts.deleted (length baseline.entries),
      )
      ∷ []

  -- What follows the loop, up to the decision.
  unfoldable pub check_limits : TreeManifest → List Change → Tally → Tally
  unfolding check_mass_delete check_change_budget check_add_budget
  check_limits baseline changes t =
      check_add_budget changes (
        check_change_budget changes
          (check_mass_delete t.counts.deleted (length baseline.entries) t))

module _ (cases : CaseTables) (floats : Floats) (policy : GuardPolicy floats) where
  unfoldable pub evaluate : TreeManifest → TreeManifest → List Change → Result Evaluation
  unfolding decide summarize
  evaluate baseline staged changes = do
    tally ← tally_changes cases floats policy changes empty_tally
    let checked = check_limits floats policy baseline changes tally
    ok (decide checked, checked.findings, summarize floats policy baseline staged changes checked)
