-- ===== src/Tests/OnResults.antt =====
-- A plan that is checked against the trees that are there.
use agent_workspace_guard.Base.{
  ◌≡◌, refl, eq_refl, int_eq, list_eq, nat_eq, true, [], ◌∷◌, List, Text, codes, pos, Result, ok,
  err,
}
use agent_workspace_guard.Models.Enums.{deny, change_kind_value, entry_kind_value}
use agent_workspace_guard.Models.Change
use agent_workspace_guard.Models.Change.{Change}
use agent_workspace_guard.Models.ManifestEntry
use agent_workspace_guard.Paths.{parse}
use agent_workspace_guard.Policy.Tally.{
  tally_changes, is_protected_top, note_sensitive, note_executable, note_symlink, note_special,
  note_destructive, add_bytes, note_protected, count_change,
}
use agent_workspace_guard.Models.TreeManifest.{TreeManifest}
use agent_workspace_guard.Models.CommitPlan.{CommitPlan}
use agent_workspace_guard.Manifest.{diff_manifests}
use agent_workspace_guard.Policy.Config.{fingerprint}
use agent_workspace_guard.Policy.Evaluate.{Evaluation, evaluate, check_limits}
use agent_workspace_guard.Broker.Commit.{View, check_result, matches_evaluation}
use agent_workspace_guard.Broker.Commit.Reevaluated.{IsCurrent, check_result-IsCurrent}
use agent_workspace_guard.Audit.{zero_hash}
use agent_workspace_guard.Tests.Hosts.{ascii_cases, millionths, checksum}
use agent_workspace_guard.Tests.Samples.{guard_policy, file_entry, or_nil}
use agent_workspace_guard.Tests.OnRecords.{plan, transaction}

abbrev pub before : TreeManifest
before = record {
  root = codes "/w";
  entries = [];
  digest = zero_hash;
  total_files = pos 0;
  total_bytes = pos 0;
}

abbrev after : TreeManifest
after = record {
  root = codes "/s";
  entries = (codes "b", file_entry (codes "b") 4) ∷ [];
  digest = zero_hash;
  total_files = pos 1;
  total_bytes = pos 4;
}

abbrev changes : List Change
changes = diff_manifests before after

abbrev or_denied : Result Evaluation → Evaluation
or_denied (ok evaluation) = evaluation
or_denied (err e) = (deny, [], [])

abbrev outcome : Evaluation
outcome = or_denied (evaluate ascii_cases millionths guard_policy before after changes)

policy_digest : Text
policy_digest = or_nil (fingerprint millionths checksum guard_policy)

abbrev current_plan : CommitPlan
current_plan = record plan {
  policy_digest = policy_digest;
  changes = changes;
  decision = outcome.0;
  findings = outcome.1;
  summary = outcome.2;
}

abbrev view : View
view = record {
  now = pos 120;
  approval_now = pos 121;
  current_real = ok before;
  current_staged = ok after;
  workspace_device = pos 7;
  state_device = pos 7;
}

evaluated : evaluate ascii_cases millionths guard_policy before after changes ≡ ok outcome
unfolding evaluate diff_manifests tally_changes is_protected_top parse
evaluated = refl

digested : fingerprint millionths checksum guard_policy ≡ ok policy_digest
unfolding fingerprint policy_digest
digested = refl

matching : matches_evaluation current_plan changes outcome ≡ true
unfolding matches_evaluation evaluate diff_manifests Change.to_dict change_kind_value
    ManifestEntry.to_dict entry_kind_value tally_changes is_protected_top parse check_limits
    note_sensitive note_executable note_symlink note_special note_destructive add_bytes
    note_protected count_change
matching = refl

checked :
    check_result checksum ascii_cases millionths guard_policy view current_plan transaction before
    ≡ ok tt
unfolding check_result int_eq list_eq nat_eq
checked = rw (evaluated, digested, eq_refl policy_digest, matching)

check_result-IsCurrent_example :
    IsCurrent checksum ascii_cases millionths guard_policy view current_plan before
check_result-IsCurrent_example =
    check_result-IsCurrent checksum ascii_cases millionths guard_policy view current_plan
      transaction before checked
