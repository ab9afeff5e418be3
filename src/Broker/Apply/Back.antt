-- ===== src/Broker/Apply/Back.antt =====
-- One step of the rollback, when no call fails: what it does to the files.
use agent_workspace_guard.Base.{
  ◌≡◌, refl, ap, ◌∙◌, Bool, true, false, ◌&&◌, Option, some, [], Text, codes, Result, ok,
}
use agent_workspace_guard.Paths.{FilePath, parse, parent, safe_join}
use agent_workspace_guard.Models.CommitOperation.{CommitOperation}
use agent_workspace_guard.FileSystem.{
  Files, lexists, World, continue, ◌>>◌, lift, when, call, moved, grown, rename, mkdir,
}
use agent_workspace_guard.FileSystem.Near.{lexists-grown}
use agent_workspace_guard.Broker.Apply.{Move, set_phase, start}
use agent_workspace_guard.Broker.Rollback.{
  displace, put_back, put_back_if_present, roll_back_operation,
}
use agent_workspace_guard.Broker.Restore.{restore_parts, restore_operation}

-- A move into a directory that is made for it.
abbrev pub relocated : FilePath → FilePath → Files → Files
relocated source target files = moved source target (grown (parent target) files)

rename_lem :
    (source target : FilePath) (files : Files) (op : CommitOperation)
    → lexists source files ≡ true
    → rename source target (start op files []) ≡ (ok tt, start op (moved source target files) [])
unfolding rename call
rename_lem source target files op there = rw there

displace_lem :
    (d x aside : FilePath) (path : Text) (files : Files) (op : CommitOperation)
    → safe_join aside path ≡ ok x
    → lexists d files ≡ true
    → displace d aside path (start op files []) ≡ (ok tt, start op (relocated d x files) [])
unfolding displace mkdir call
displace_lem d x aside path files op e there =
    rw (e, rename_lem d x (grown (parent x) files) op (lexists-grown (parent x) d files there))

put_back_lem :
    (b d : FilePath) (files : Files) (op : CommitOperation)
    → lexists b files ≡ true
    → put_back b d (start op files []) ≡ (ok tt, start op (relocated b d files) [])
unfolding put_back mkdir call
put_back_lem b d files op there =
    rw (rename_lem b d (grown (parent d) files) op (lexists-grown (parent d) b files there))

abbrev pub rolled_back : CommitOperation → CommitOperation
rolled_back op = record op { phase = codes "rolled_back" }

-- A step back, by the flags that it reads.
step_back : FilePath → FilePath → Text → Bool → Bool → Option Text → Move (Unit {0})
step_back d aside path installed moved_away backup w =
    (when (installed && lexists d w.files) (displace d aside path)
        >> when moved_away (put_back_if_present d backup)
        >> set_phase (codes "rolled_back"))
      w

roll_back_operation_lem :
    (d aside : FilePath) (op : CommitOperation) (installed moved_away : Bool) (backup : Option Text)
    (files : Files) (r : Result (Unit {0}) × World CommitOperation)
    → op.installed ≡ installed
    → op.backup_moved ≡ moved_away
    → op.backup_path ≡ backup
    → step_back d aside op.path installed moved_away backup (start op files []) ≡ r
    → roll_back_operation d aside op (start op files []) ≡ r
unfolding step_back roll_back_operation
roll_back_operation_lem d aside op installed moved_away backup files r i m e h =
    ap (λ x. step_back d aside op.path x op.backup_moved op.backup_path (start op files [])) i
    ∙ ap (λ x. step_back d aside op.path installed x op.backup_path (start op files [])) m
    ∙ ap (λ x. step_back d aside op.path installed moved_away x (start op files [])) e
    ∙ h

module _ (d b x aside : FilePath) (op : CommitOperation) (files : Files) where
  pub roll_back_untouched :
      op.installed ≡ false
      → op.backup_moved ≡ false
      → roll_back_operation d aside op (start op files [])
        ≡ (ok tt, start (rolled_back op) files [])
  unfolding step_back
  roll_back_untouched i m =
      roll_back_operation_lem d aside op false false op.backup_path files _ i m refl refl

  pub roll_back_backed :
      (t : Text)
      → op.installed ≡ false
      → op.backup_moved ≡ true
      → op.backup_path ≡ some t
      → parse t ≡ b
      → lexists b files ≡ true
      → roll_back_operation d aside op (start op files [])
        ≡ (ok tt, start (rolled_back op) (relocated b d files) [])
  unfolding step_back
  roll_back_backed t i m e p there =
      roll_back_operation_lem d aside op false true (some t) files _ i m e
        (rw (p, there, put_back_lem b d files op there))

  pub roll_back_added :
      op.installed ≡ true
      → op.backup_moved ≡ false
      → safe_join aside op.path ≡ ok x
      → lexists d files ≡ true
      → roll_back_operation d aside op (start op files [])
        ≡ (ok tt, start (rolled_back op) (relocated d x files) [])
  unfolding step_back
  roll_back_added i m e there =
      roll_back_operation_lem d aside op true false op.backup_path files _ i m refl
        (rw (there, displace_lem d x aside op.path files op e there))

  pub roll_back_replaced :
      (t : Text)
      → op.installed ≡ true
      → op.backup_moved ≡ true
      → op.backup_path ≡ some t
      → parse t ≡ b
      → safe_join aside op.path ≡ ok x
      → lexists d files ≡ true
      → lexists b (relocated d x files) ≡ true
      → roll_back_operation d aside op (start op files [])
        ≡ (ok tt, start (rolled_back op) (relocated b d (relocated d x files)) [])
  unfolding step_back
  roll_back_replaced t i m e p j there kept =
      roll_back_operation_lem d aside op true true (some t) files _ i m e (
        rw (
          there,
          displace_lem d x aside op.path files op j there,
          p,
          kept,
          put_back_lem b d (relocated d x files) op kept,
        ))

abbrev pub restored : CommitOperation → CommitOperation
restored op = record op { phase = codes "restored" }

restore_operation_lem :
    (workspace d aside : FilePath) (op : CommitOperation) (installed moved_away : Bool)
    (backup : Option Text) (files : Files) (r : Result (Unit {0}) × World CommitOperation)
    → safe_join workspace op.path ≡ ok d
    → op.installed ≡ installed
    → op.backup_moved ≡ moved_away
    → op.backup_path ≡ backup
    → restore_parts d aside op.path installed moved_away backup (start op files []) ≡ r
    → restore_operation workspace aside op (start op files []) ≡ r
unfolding restore_operation
restore_operation_lem workspace d aside op installed moved_away backup files r j i m e h =
    ap
      (λ y.
        continue (lift y (start op files []))
          λ x. restore_parts x aside op.path op.installed op.backup_moved op.backup_path)
      j
    ∙ ap (λ x. restore_parts d aside op.path x op.backup_moved op.backup_path (start op files [])) i
    ∙ ap (λ x. restore_parts d aside op.path installed x op.backup_path (start op files [])) m
    ∙ ap (λ x. restore_parts d aside op.path installed moved_away x (start op files [])) e
    ∙ h

module _ (workspace d b x aside : FilePath) (op : CommitOperation) (files : Files)
    (target : safe_join workspace op.path ≡ ok d) where
  pub restore_untouched :
      op.installed ≡ false
      → op.backup_moved ≡ false
      → restore_operation workspace aside op (start op files [])
        ≡ (ok tt, start (restored op) files [])
  unfolding restore_parts
  restore_untouched i m =
      restore_operation_lem workspace d aside op false false op.backup_path files _ target i m refl
        refl

  pub restore_backed :
      (t : Text)
      → op.installed ≡ false
      → op.backup_moved ≡ true
      → op.backup_path ≡ some t
      → parse t ≡ b
      → lexists b files ≡ true
      → restore_operation workspace aside op (start op files [])
        ≡ (ok tt, start (restored op) (relocated b d files) [])
  unfolding restore_parts call
  restore_backed t i m e p there =
      restore_operation_lem workspace d aside op false true (some t) files _ target i m e
        (rw (p, there, put_back_lem b d files op there))

  pub restore_added :
      op.installed ≡ true
      → op.backup_moved ≡ false
      → safe_join aside op.path ≡ ok x
      → lexists d files ≡ true
      → restore_operation workspace aside op (start op files [])
        ≡ (ok tt, start (restored op) (relocated d x files) [])
  unfolding restore_parts call
  restore_added i m e there =
      restore_operation_lem workspace d aside op true false op.backup_path files _ target i m refl
        (rw (there, displace_lem d x aside op.path files op e there))

  pub restore_replaced :
      (t : Text)
      → op.installed ≡ true
      → op.backup_moved ≡ true
      → op.backup_path ≡ some t
      → parse t ≡ b
      → safe_join aside op.path ≡ ok x
      → lexists d files ≡ true
      → lexists b (relocated d x files) ≡ true
      → restore_operation workspace aside op (start op files [])
        ≡ (ok tt, start (restored op) (relocated b d (relocated d x files)) [])
  unfolding restore_parts call
  restore_replaced t i m e p j there kept =
      restore_operation_lem workspace d aside op true true (some t) files _ target i m e (
        rw (
          there,
          displace_lem d x aside op.path files op j there,
          p,
          kept,
          put_back_lem b d (relocated d x files) op kept,
        ))
