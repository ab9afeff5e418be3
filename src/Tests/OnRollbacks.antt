-- ===== src/Tests/OnRollbacks.antt =====
-- A commit of two operations that fails after the second payload has been moved.
use agent_workspace_guard.Base.{
  ◌≡◌, inl, map, Text, Result, refl, ℕ, Bool, true, false, Option, none, some, List, [], ◌∷◌, ◌++◌,
  codes, ok, ◌==◌, nat_eq, list_eq, starts_with, pos, if◌then◌else◌,
}
use agent_workspace_guard.Paths.{FilePath, parse, parent, safe_join}
use agent_workspace_guard.Models.Enums.{EntryKind, ChangeKind, file, modify, add}
use agent_workspace_guard.Models.CommitOperation.{CommitOperation}
use agent_workspace_guard.FileSystem.{Node, Files}
use agent_workspace_guard.FileSystem.Moves.{Separate}
use agent_workspace_guard.Models.ManifestEntry.{ManifestEntry}
use agent_workspace_guard.Models.Change.{Change}
use agent_workspace_guard.Audit.{zero_hash}
use agent_workspace_guard.Paths.{has_drive, render}
use agent_workspace_guard.Paths.Safe.Printed.{IsPath}
use agent_workspace_guard.Broker.Prepare.{prepare_operations}
use agent_workspace_guard.Broker.Apply.{apply_parts, start, apply_operations}
use agent_workspace_guard.Broker.Rollback.{roll_back_operations}
use agent_workspace_guard.Broker.Restore.{restore_operations}
use agent_workspace_guard.Broker.Apply.Ends.{Ends, After, Raised}
use agent_workspace_guard.Broker.Apply.Outcomes.{Outcome}
use agent_workspace_guard.Broker.Apply.Parts.{apply_parts-Outcome}
use agent_workspace_guard.Broker.Apply.RolledBack.{TakenBack}
use agent_workspace_guard.Broker.Apply.Restored.{Restored}
use agent_workspace_guard.Broker.Apply.{Progress}
use agent_workspace_guard.Broker.Rollback.Conclude.{check_restored, rollback_failed_commit}
use agent_workspace_guard.Broker.Rollback.Complete.{IsComplete, rollback_failed_commit-IsComplete}
use agent_workspace_guard.Broker.Apply.Layout.{IsJoinable, RootsApart, places_of, FitTogether}
use agent_workspace_guard.Broker.Apply.Prepared.{
  paths_of, AddedAreAbsent, rollback_undoes_commit, restore_undoes_commit,
}

abbrev at : FilePath → FilePath
at path = codes "/" ∷ path

abbrev a_file : ℕ → Node
a_file c = record { kind = file; mode = pos 0o644; content = c ∷ [] }

abbrev files_of : List (FilePath × Node) → Files
files_of [] path = none
files_of ((p, node) ∷ entries) path = if p == path then some node else files_of entries path

abbrev disk : Files
disk = files_of (
    (at (codes "w" ∷ codes "a" ∷ []), a_file 1)
    ∷ (at (codes "p" ∷ codes "a" ∷ []), a_file 2)
    ∷ (at (codes "p" ∷ codes "n" ∷ []), a_file 3)
    ∷ [])

abbrev entry : Text → ManifestEntry
entry path = record {
  path = path;
  kind = file;
  mode = pos 0o644;
  size = pos 1;
  digest = zero_hash;
  link_target = none;
}

-- `a` is to be replaced, and `n` is to be added.
abbrev changed_a : Change
changed_a = record {
  path = codes "a";
  kind = modify;
  before = some (entry (codes "a"));
  after = some (entry (codes "a"));
}

abbrev new_n : Change
new_n = record { path = codes "n"; kind = add; before = none; after = some (entry (codes "n")) }

abbrev changes : List Change
changes = changed_a ∷ new_n ∷ []

abbrev w_root : FilePath
w_root = at (codes "w" ∷ [])

abbrev t_root : FilePath
t_root = at (codes "t" ∷ [])

abbrev p_root : FilePath
p_root = at (codes "p" ∷ [])

abbrev q_root : FilePath
q_root = at (codes "q" ∷ [])

abbrev copies : FilePath → FilePath → Result (Unit {0})
copies source destination = ok tt

abbrev pending : Text → ChangeKind → Option EntryKind → Option Text → CommitOperation
pending path change_kind before_kind backup_path = record {
  path = path;
  change_kind = change_kind;
  before_kind = before_kind;
  after_kind = some file;
  backup_path = backup_path;
  installed = false;
  backup_moved = false;
  phase = codes "pending";
}

abbrev operations : List CommitOperation
operations =
    pending (codes "a") modify (some file) (some (codes "/q/a"))
    ∷ pending (codes "n") add none none
    ∷ []

prepared : prepare_operations t_root p_root q_root copies changes ≡ ok operations
unfolding prepare_operations safe_join render
prepared = refl

abbrev apart : (a b : FilePath) → starts_with a b ≡ false → starts_with b a ≡ false → Separate a b
apart a b h k = record { not_below = h; not_above = k }

roots_apart : (name : Text) → RootsApart w_root p_root q_root name
unfolding starts_with list_eq nat_eq
roots_apart name = record {
  w_q = apart w_root q_root refl refl;
  w_a = apart w_root p_root refl refl;
  q_a = apart q_root p_root refl refl;
}

q_root-IsPath : IsPath q_root
unfolding nat_eq
q_root-IsPath = (inl refl, ((λ e. cc, λ e. cc, refl), tt))

a-IsJoinable : IsJoinable (codes "a")
unfolding has_drive starts_with nat_eq parse list_eq
a-IsJoinable = record {
  plain = record { no_nul = refl; no_slash = refl; no_backslash = refl; no_drive = refl };
  safe = ((λ e. cc, λ e. cc, λ e. cc, refl), tt);
  some_part = λ e. cc;
}

n-IsJoinable : IsJoinable (codes "n")
unfolding has_drive starts_with nat_eq parse list_eq
n-IsJoinable = record {
  plain = record { no_nul = refl; no_slash = refl; no_backslash = refl; no_drive = refl };
  safe = ((λ e. cc, λ e. cc, λ e. cc, refl), tt);
  some_part = λ e. cc;
}

fit_rolled_back : FitTogether w_root p_root q_root (codes "_failed_new") (paths_of changes)
unfolding starts_with list_eq nat_eq parse
fit_rolled_back = (
  (a-IsJoinable, apart _ _ refl refl),
  (apart _ _ refl refl, tt),
  ((n-IsJoinable, apart _ _ refl refl), tt, tt),
)

fit_restored : FitTogether w_root p_root q_root (codes "_restore_current") (paths_of changes)
unfolding starts_with list_eq nat_eq parse
fit_restored = (
  (a-IsJoinable, apart _ _ refl refl),
  (apart _ _ refl refl, tt),
  ((n-IsJoinable, apart _ _ refl refl), tt, tt),
)

n_is_absent : AddedAreAbsent w_root disk changes
unfolding list_eq nat_eq parse
n_is_absent = (λ new rest. cc, (λ new rest. refl, tt))

abbrev fault_after_rename : List Bool
fault_after_rename =
    false ∷ false ∷ false ∷ false ∷ false ∷ false ∷ false ∷ false ∷ false ∷ false ∷ false ∷ false
    ∷ false ∷ false ∷ true ∷ []

-- The second operation raises, with its payload in the workspace.
raised :
    (apply_operations w_root p_root operations disk fault_after_rename).files
      (at (codes "w" ∷ codes "n" ∷ []))
    ≡ some (a_file 3)
unfolding apply_operations starts_with list_eq nat_eq parse
raised = refl

rollback_undoes_commit_example :
    TakenBack disk (map (places_of w_root p_root q_root (codes "_failed_new")) (paths_of changes)) (
      let a = apply_operations w_root p_root operations disk fault_after_rename in
      roll_back_operations w_root (q_root ++ (codes "_failed_new" ∷ [])) a.operations a.files [])
rollback_undoes_commit_example =
    rollback_undoes_commit w_root t_root p_root q_root copies disk fault_after_rename changes
      operations (roots_apart (codes "_failed_new")) q_root-IsPath fit_rolled_back n_is_absent
      prepared

restore_undoes_commit_example :
    Restored disk
      (map (places_of w_root p_root q_root (codes "_restore_current")) (paths_of changes))
      (let a = apply_operations w_root p_root operations disk [] in
        restore_operations w_root
          (q_root ++ (codes "_restore_current" ∷ []))
          a.operations
          a.files
          [])
restore_undoes_commit_example =
    restore_undoes_commit w_root t_root p_root q_root copies disk [] changes operations
      (roots_apart (codes "_restore_current")) q_root-IsPath fit_restored n_is_absent prepared

apply_parts-Outcome_example :
    let w =
      start
        (pending (codes "a") modify (some file) (some (codes "/q/a")))
        disk
        (false ∷ false ∷ true ∷ []) in
    Ends
      (After (
        Outcome disk w.memory
          (at (codes "w" ∷ codes "a" ∷ []))
          (at (codes "q" ∷ codes "a" ∷ []))
          (at (codes "p" ∷ codes "a" ∷ []))
          (some file)))
      (Raised (
        Outcome disk w.memory
          (at (codes "w" ∷ codes "a" ∷ []))
          (at (codes "q" ∷ codes "a" ∷ []))
          (at (codes "p" ∷ codes "a" ∷ []))
          (some file)))
      (apply_parts
        (at (codes "w" ∷ codes "a" ∷ []))
        (at (codes "p" ∷ codes "a" ∷ []))
        (some file)
        (some (codes "/q/a"))
        (some file)
        w)
unfolding parse
apply_parts-Outcome_example =
    apply_parts-Outcome disk (pending (codes "a") modify (some file) (some (codes "/q/a")))
      (at (codes "w" ∷ codes "a" ∷ [])) (at (codes "q" ∷ codes "a" ∷ []))
      (at (codes "p" ∷ codes "a" ∷ [])) (some file) (some file) (some (codes "/q/a"))
      (false ∷ false ∷ true ∷ []) refl refl refl

abbrev content_of : Option Node → Text
content_of none = []
content_of (some node) = node.content

-- A digest of the two targets.
abbrev digest : Files → Result Text
digest files = ok (
    content_of (files (at (codes "w" ∷ codes "a" ∷ [])))
    ++ content_of (files (at (codes "w" ∷ codes "n" ∷ []))))

abbrev failed : Progress
failed = apply_operations w_root p_root operations disk fault_after_rename

returned :
    (rollback_failed_commit digest w_root q_root (1 ∷ []) failed.operations failed.files []).1
    ≡ ok tt
unfolding rollback_failed_commit apply_operations starts_with list_eq nat_eq parse check_restored
    parent
returned = refl

rollback_failed_commit-IsComplete_example :
    IsComplete digest
      (1 ∷ [])
      w_root
      (q_root ++ (codes "_failed_new" ∷ []))
      failed.operations
      failed.files
      (rollback_failed_commit digest w_root q_root (1 ∷ []) failed.operations failed.files []).2
    × ((rollback_failed_commit digest w_root q_root (1 ∷ []) failed.operations failed.files []).0
        ≡ codes "rolled_back")
rollback_failed_commit-IsComplete_example =
    rollback_failed_commit-IsComplete digest w_root q_root (1 ∷ []) failed.operations failed.files
      [] returned
