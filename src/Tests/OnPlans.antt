-- ===== src/Tests/OnPlans.antt =====
-- The policy on a plan that an agent might stage.
use agent_workspace_guard.Base.{
  ◌≡◌, ◌≢◌, ◌↔◌, refl, ◌+◌, none, some, List, [], ◌∷◌, codes, pos, ◌+ℤ◌, Result, ok, err,
  if◌then◌else◌, replace,
}
use agent_workspace_guard.Paths.{parse, parent, slash, has_drive, is_windows_absolute}
use agent_workspace_guard.Paths.Safe.Joined.{IsPlain}
use agent_workspace_guard.Models.Enums.{
  allow, require_approval, deny, add, modify, delete, type_change,
}
use agent_workspace_guard.Models.Change.{Change}
use agent_workspace_guard.Policy.Symlink.{walk, is_protected, reason_in, unsafe_symlink_reason}
use agent_workspace_guard.Policy.Symlink.Walk.{IsContained, unsafe_symlink_reason_iff}
use agent_workspace_guard.Policy.Tally.{
  Tally, empty_tally, tally_changes, is_protected_top, note_sensitive, note_executable,
  note_symlink, note_special, note_destructive, add_bytes, note_protected, count_change,
}
use agent_workspace_guard.Policy.Evaluate.{Evaluation, check_limits, evaluate}
use agent_workspace_guard.Policy.Evaluate.Flags.{has_error}
use agent_workspace_guard.Policy.Evaluate.Counts.{count_kind, sum_added_bytes, tally_changes_totals}
use agent_workspace_guard.Policy.Evaluate.Outcome.{is_blocked, needs_review, evaluate_decision}
use agent_workspace_guard.Tests.Hosts.{ascii_cases, millionths}
use agent_workspace_guard.Tests.Samples.{baseline, staged, guard_policy, file_entry}

abbrev or_denied : Result Evaluation → Evaluation
or_denied (ok evaluation) = evaluation
or_denied (err e) = (deny, [], [])

-- A modification and an addition.
abbrev changes : List Change
changes =
    record {
      path = codes "a";
      kind = modify;
      before = some (file_entry (codes "a") 1);
      after = some (file_entry (codes "a") 2);
    }
    ∷ record {
      path = codes "b";
      kind = add;
      before = none;
      after = some (file_entry (codes "b") 4);
    }
    ∷ []

abbrev outcome : Evaluation
outcome = or_denied (evaluate ascii_cases millionths guard_policy baseline staged changes)

evaluated :
    evaluate ascii_cases millionths guard_policy baseline staged changes
    ≡ ok (outcome.0, outcome.1, outcome.2)
unfolding evaluate tally_changes is_protected_top parse
evaluated = refl

reviewed : outcome.0 ≡ require_approval
unfolding evaluate tally_changes is_protected_top parse check_limits note_sensitive note_executable
    note_symlink note_special note_destructive add_bytes note_protected count_change
reviewed = refl

evaluate_decision_example :
    (outcome.0 ≡ (
      if is_blocked ascii_cases millionths guard_policy baseline changes
      then deny
      else if needs_review ascii_cases millionths guard_policy changes
      then require_approval
      else allow))
    × (has_error outcome.1 ≡ is_blocked ascii_cases millionths guard_policy baseline changes)
evaluate_decision_example =
    evaluate_decision ascii_cases millionths guard_policy baseline staged changes outcome.0
      outcome.1 outcome.2 evaluated

abbrev or_empty : Result Tally → Tally
or_empty (ok t) = t
or_empty (err e) = empty_tally

abbrev counted : Tally
counted = or_empty (tally_changes ascii_cases millionths guard_policy changes empty_tally)

tallied : tally_changes ascii_cases millionths guard_policy changes empty_tally ≡ ok counted
unfolding tally_changes is_protected_top parse
tallied = refl

tally_changes_totals_example :
    (counted.counts.added ≡ 0 + count_kind add changes)
    × (counted.counts.modified ≡ 0 + count_kind modify changes)
    × (counted.counts.deleted ≡ 0 + count_kind delete changes)
    × (counted.counts.type_changed ≡ 0 + count_kind type_change changes)
    × (counted.added_bytes ≡ pos 0 +ℤ sum_added_bytes changes)
tally_changes_totals_example =
    tally_changes_totals ascii_cases millionths guard_policy changes empty_tally counted tallied

unsafe_symlink_reason_iff_example :
    (unsafe_symlink_reason ascii_cases
        (codes "src/link")
        (some (codes "../b"))
        guard_policy.protected_top_level
      ≡ none)
    ↔ ((codes "../b" ≢ [])
        × IsPlain (codes "../b")
        × IsContained ascii_cases guard_policy.protected_top_level
            (parent (parse (codes "src/link")))
            (parse (replace b'\\' slash (codes "../b"))))
unsafe_symlink_reason_iff_example =
    unsafe_symlink_reason_iff ascii_cases (codes "src/link") (codes "../b")
      guard_policy.protected_top_level

-- A link to a neighbour of its folder is accepted.
neighbour :
    unsafe_symlink_reason ascii_cases
      (codes "src/link")
      (some (codes "../b"))
      guard_policy.protected_top_level
    ≡ none
unfolding unsafe_symlink_reason has_drive is_windows_absolute parse parent replace walk reason_in
    is_protected
neighbour = refl
