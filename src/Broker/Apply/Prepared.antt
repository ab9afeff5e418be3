-- ===== src/Broker/Apply/Prepared.antt =====
-- A commit from the changes of its plan: what it prepares is planned, so it can be taken back.
use agent_workspace_guard.Base.{
  ◌≡◌, inr, refl, subst, Bool, Option, none, some, List, [], ◌∷◌, ◌++◌, map, All, Text, codes,
  Result, ok, ok-injective, ◌>>=◌, >>=-eq-ok,
}
use agent_workspace_guard.Paths.{FilePath, parse, render, safe_join}
use agent_workspace_guard.Paths.Safe.Joined.{IsSafeName, safe_join_complete}
use agent_workspace_guard.Paths.Safe.Printed.{IsPath, parse-render}
use agent_workspace_guard.Models.Enums.{EntryKind}
use agent_workspace_guard.Models.ManifestEntry.{ManifestEntry}
use agent_workspace_guard.Models.Change.{Change}
use agent_workspace_guard.Models.CommitOperation.{CommitOperation}
use agent_workspace_guard.FileSystem.{Files}
use agent_workspace_guard.Broker.Prepare.{
  kind_of, stage_payload, backup_path_of, prepare_operation, prepare_operations,
}
use agent_workspace_guard.Broker.Apply.{apply_operations}
use agent_workspace_guard.Broker.Rollback.{roll_back_operations}
use agent_workspace_guard.Broker.Restore.{restore_operations}
use agent_workspace_guard.Broker.Apply.Outcomes.{IsBackup}
use agent_workspace_guard.Broker.Apply.Places.{Places}
use agent_workspace_guard.Broker.Apply.Backwards.{Planned, Arranged, NewAreAbsent}
use agent_workspace_guard.Broker.Apply.RolledBack.{TakenBack, roll_back-apply}
use agent_workspace_guard.Broker.Apply.Restored.{Restored, restore-apply}
use agent_workspace_guard.Broker.Apply.Layout.{
  IsJoinable, IsRelative-append, RootsApart, aside_root, places_of, Fits, FitTogether, apart_places,
  All-Beside,
}

abbrev pub paths_of : List Change → List Text
paths_of changes = map (λ change. change.path) changes

joined :
    (root : FilePath) (path : Text)
    → IsJoinable path
    → safe_join root path ≡ ok (root ++ parse path)
joined root path h = safe_join_complete root path h.plain h.safe h.some_part

pub IsPath-append :
    (root rest : FilePath) → IsPath root → All IsSafeName rest → IsPath (root ++ rest)
IsPath-append [] [] h k = tt
IsPath-append [] (part ∷ rest) h (k, ks) =
    (inr (inr (k.0, k.1, k.3)), IsRelative-append [] rest tt ks)
IsPath-append (part ∷ root) rest (h, hs) k = (h, IsRelative-append root rest hs k)

-- Nothing lies where a change says that there was nothing.
abbrev pub AddedAreAbsent : FilePath → Files → List Change → Type 0
AddedAreAbsent workspace files [] = Unit
AddedAreAbsent workspace files (change ∷ changes) =
    (change.before ≡ none
      → (rest : FilePath) → files ((workspace ++ parse change.path) ++ rest) ≡ none)
    × AddedAreAbsent workspace files changes

module _ (workspace worktree apply_root quarantine_root : FilePath)
    (copy_entry : FilePath → FilePath → Result (Unit {0})) (name : Text) where
  backup_path_of-IsBackup :
      (path : Text) (before : Option ManifestEntry) (backup : Option Text)
      → IsPath quarantine_root
      → IsJoinable path
      → backup_path_of worktree apply_root quarantine_root copy_entry path before ≡ ok backup
      → IsBackup (kind_of before) backup (quarantine_root ++ parse path)
  backup_path_of-IsBackup path none backup q h e = tt
  backup_path_of-IsBackup path (some before) backup q h e =
      let printed : ok (some (render (quarantine_root ++ parse path))) ≡ ok backup =
        subst (λ j. (j >>= λ b. ok (some (render b))) ≡ ok backup) (joined quarantine_root path h)
          e in
      subst (λ b. IsBackup (some before.kind) b (quarantine_root ++ parse path))
        (ok-injective printed)
        (parse-render (quarantine_root ++ parse path)
          (IsPath-append quarantine_root (parse path) q h.safe))

  prepare_operation-Planned :
      (change : Change) (operation : CommitOperation)
      → RootsApart workspace apply_root quarantine_root name
      → IsPath quarantine_root
      → Fits workspace apply_root quarantine_root name change.path
      → prepare_operation worktree apply_root quarantine_root copy_entry change ≡ ok operation
      → Planned workspace apply_root
          (aside_root workspace apply_root quarantine_root name)
          operation
          (places_of workspace apply_root quarantine_root name change.path)
        × (operation.before_kind ≡ kind_of change.before)
  unfolding prepare_operation
  prepare_operation-Planned change operation roots q h e =
      let path = change.path in
      let (u, staged, rest) =
        >>=-eq-ok (stage_payload worktree apply_root quarantine_root copy_entry path change.after) _
          e in
      let (backup, backed, made) =
        >>=-eq-ok (backup_path_of worktree apply_root quarantine_root copy_entry path change.before)
          _ rest in
      subst
        (λ o.
          Planned workspace apply_root (aside_root workspace apply_root quarantine_root name) o
            (places_of workspace apply_root quarantine_root name path)
          × (o.before_kind ≡ kind_of change.before))
        (ok-injective made)
        (
          record {
            target = joined workspace path h.0;
            payload = joined apply_root path h.0;
            displaced = joined (aside_root workspace apply_root quarantine_root name) path h.0;
            backup = backup_path_of-IsBackup path change.before backup q h.0 backed;
            apart = apart_places workspace apply_root quarantine_root name roots path h;
            not_moved = refl;
            not_installed = refl;
          },
          refl,
        )

  abbrev places : List Change → List Places
  places changes = map (places_of workspace apply_root quarantine_root name) (paths_of changes)

  absent_kind :
      (before : Option ManifestEntry) (kind : Option EntryKind)
      → kind ≡ kind_of before
      → kind ≡ none
      → before ≡ none
  absent_kind none kind e new = refl
  absent_kind (some entry) kind e new = cc

  prepare_operations-Arranged :
      (files : Files) (changes : List Change) (operations : List CommitOperation)
      → RootsApart workspace apply_root quarantine_root name
      → IsPath quarantine_root
      → FitTogether workspace apply_root quarantine_root name (paths_of changes)
      → AddedAreAbsent workspace files changes
      → prepare_operations worktree apply_root quarantine_root copy_entry changes ≡ ok operations
      → Arranged workspace apply_root
          (aside_root workspace apply_root quarantine_root name)
          operations
          (places changes)
        × NewAreAbsent files operations (places changes)
  unfolding prepare_operations
  prepare_operations-Arranged files [] operations roots q h k e =
      subst
        (λ o.
          Arranged workspace apply_root (aside_root workspace apply_root quarantine_root name) o []
          × NewAreAbsent files o [])
        (ok-injective e) (tt, tt)
  prepare_operations-Arranged files (change ∷ changes) operations roots q (h, hs, rest) (k, ks) e =
      let (operation, one, e2) =
        >>=-eq-ok (prepare_operation worktree apply_root quarantine_root copy_entry change) _ e in
      let (more, all, e3) =
        >>=-eq-ok (prepare_operations worktree apply_root quarantine_root copy_entry changes) _
          e2 in
      let (plan, kind) = prepare_operation-Planned change operation roots q h one in
      let (later, absent) = prepare_operations-Arranged files changes more roots q rest ks all in
      subst
        (λ o.
          Arranged workspace apply_root (aside_root workspace apply_root quarantine_root name) o
            (places (change ∷ changes))
          × NewAreAbsent files o (places (change ∷ changes)))
        (ok-injective e3)
        (
          (
            plan,
            All-Beside workspace apply_root quarantine_root name roots change.path
                (paths_of changes) h hs,
            later,
          ),
          (λ new. k (absent_kind change.before operation.before_kind kind new), absent),
        )

module _ (workspace worktree apply_root quarantine_root : FilePath)
    (copy_entry : FilePath → FilePath → Result (Unit {0})) where
  -- Whatever raises while the operations that a commit has prepared are applied: the rollback, if none of
  -- its own calls raises, goes through without errors, and each path outside the payloads, the backups
  -- and the places for payloads that are moved aside holds what it held, or a new directory where there
  -- was nothing. The three roots lie beside one another, the quarantine is a path that can be printed,
  -- the paths of the changes can be joined, none lies in another or in "_failed_new", and nothing lies
  -- at a target that is new.
  pub rollback_undoes_commit :
      (files : Files) (faults : List Bool) (changes : List Change)
      (operations : List CommitOperation)
      → RootsApart workspace apply_root quarantine_root (codes "_failed_new")
      → IsPath quarantine_root
      → FitTogether workspace apply_root quarantine_root (codes "_failed_new") (paths_of changes)
      → AddedAreAbsent workspace files changes
      → prepare_operations worktree apply_root quarantine_root copy_entry changes ≡ ok operations
      → TakenBack files
          (map
            (places_of workspace apply_root quarantine_root (codes "_failed_new"))
            (paths_of changes))
          (let a = apply_operations workspace apply_root operations files faults in
            roll_back_operations workspace
              (quarantine_root ++ (codes "_failed_new" ∷ []))
              a.operations
              a.files
              [])
  rollback_undoes_commit files faults changes operations roots q h k e =
      let (arranged, absent) =
        prepare_operations-Arranged workspace worktree apply_root quarantine_root copy_entry
          (codes "_failed_new") files changes operations roots q h k e in
      roll_back-apply workspace apply_root (quarantine_root ++ (codes "_failed_new" ∷ []))
        operations
        (map (places_of workspace apply_root quarantine_root (codes "_failed_new"))
          (paths_of changes))
        files faults arranged absent

  -- A restore of the operations that a commit has applied, if none of its own calls raises, goes through,
  -- and each path outside the payloads, the backups and the places for payloads that are moved aside
  -- holds what it held before the commit, or a new directory where there was nothing. The conditions are
  -- those of the rollback, with "_restore_current".
  pub restore_undoes_commit :
      (files : Files) (faults : List Bool) (changes : List Change)
      (operations : List CommitOperation)
      → RootsApart workspace apply_root quarantine_root (codes "_restore_current")
      → IsPath quarantine_root
      → FitTogether workspace apply_root quarantine_root
          (codes "_restore_current")
          (paths_of changes)
      → AddedAreAbsent workspace files changes
      → prepare_operations worktree apply_root quarantine_root copy_entry changes ≡ ok operations
      → Restored files
          (map
            (places_of workspace apply_root quarantine_root (codes "_restore_current"))
            (paths_of changes))
          (let a = apply_operations workspace apply_root operations files faults in
            restore_operations workspace
              (quarantine_root ++ (codes "_restore_current" ∷ []))
              a.operations
              a.files
              [])
  restore_undoes_commit files faults changes operations roots q h k e =
      let (arranged, absent) =
        prepare_operations-Arranged workspace worktree apply_root quarantine_root copy_entry
          (codes "_restore_current") files changes operations roots q h k e in
      restore-apply workspace apply_root (quarantine_root ++ (codes "_restore_current" ∷ []))
        operations
        (map (places_of workspace apply_root quarantine_root (codes "_restore_current"))
          (paths_of changes))
        files faults arranged absent
