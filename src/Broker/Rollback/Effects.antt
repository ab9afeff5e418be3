-- ===== src/Broker/Rollback/Effects.antt =====
-- What one step back of `_rollback_failed_commit` of src/agent_workspace_guard/broker.py does to the files.
use agent_workspace_guard.Base.{
  ◌≡◌, ap, Bool, true, false, subst, ok-injective, ◌&&◌, if◌then◌else◌, Option, none, some, Text,
  codes, Result, ok, err, builtin,
}
use agent_workspace_guard.Paths.{FilePath, parse, parent, safe_join}
use agent_workspace_guard.Models.CommitOperation.{CommitOperation}
use agent_workspace_guard.FileSystem.{
  Files, World, lexists, moved, grown, rename, mkdir, when, lift, call, ◌>>=◌, ◌>>◌,
}
use agent_workspace_guard.FileSystem.Triples.{
  Ends, Triple, Triple->>=, Triple-effect, Triple-given, Triple-remember,
}
use agent_workspace_guard.Broker.Apply.{Move, set_phase}
use agent_workspace_guard.Broker.Rollback.{
  displace, put_back, put_back_if_present, roll_back_operation,
}

-- A tree is moved to its place aside.
abbrev pub moved_aside : FilePath → Result FilePath → Files → Files
moved_aside destination (ok displaced) files =
    moved destination displaced (grown (parent displaced) files)
moved_aside destination (err e) files = files

-- What was installed at a destination is moved aside, if it is still there.
unfoldable pub set_aside : FilePath → FilePath → Text → Bool → Files → Files
unfolding safe_join moved grown parent
set_aside destination aside_root path installed files =
    if installed && lexists destination files
    then moved_aside destination (safe_join aside_root path) files
    else files

-- The backup lies at the destination again, if it lies at its place.
unfoldable pub set_back : FilePath → Bool → Option Text → Files → Files
unfolding moved grown parent parse
set_back destination false backup_path files = files
set_back destination true none files = files
set_back destination true (some backup) files =
    if lexists (parse backup) files
    then moved (parse backup) destination (grown (parent destination) files)
    else files

abbrev pub Memory : Type 0
Memory = CommitOperation

-- The files are known.
abbrev pub Have : Files → World Memory → Type 0
Have files w = w.files ≡ files

abbrev pub Raises : World Memory → Type 0
Raises w = Unit

abbrev pub Leaves : (Files → Files) → Move (Unit {0}) → Type 0
Leaves effect action =
    (files : Files) → Triple (Have files) action (λ u. Have (effect files)) Raises

call-Leaves : (effect : Files → Files) → Leaves effect (call effect)
call-Leaves effect files = Triple-effect effect (λ w faults p. ap effect p) (λ w faults p. tt)

rename-Leaves : (source target : FilePath) → Leaves (moved source target) (rename source target)
unfolding rename Ends
rename-Leaves source target files = record { ends = λ w p. follow w p (lexists source w.files) }
  where
    follow :
        (w : World Memory)
        → Have files w
        → (present : Bool)
        → Ends
            (λ u. Have (moved source target files))
            Raises
            (if present then call (moved source target) w else (err builtin, w))
    follow w p true = (call-Leaves (moved source target) files).ends w p
    follow w p false = tt

seq-Leaves :
    (f g : Files → Files) (m n : Move (Unit {0}))
    → Leaves f m
    → Leaves g n
    → Leaves (λ files. g (f files)) (m >> n)
seq-Leaves f g m n first second files =
    Triple->>= (λ u. Have (f files)) m (λ u. n) (first files) (λ u. second (f files))

put_back-Leaves :
    (backup destination : FilePath)
    → Leaves
        (λ files. moved backup destination (grown (parent destination) files))
        (put_back backup destination)
unfolding put_back mkdir
put_back-Leaves backup destination =
    seq-Leaves (grown (parent destination)) (moved backup destination) _ _
      (call-Leaves (grown (parent destination))) (rename-Leaves backup destination)

displace-Leaves :
    (destination aside_root : FilePath) (path : Text)
    → Leaves
        (moved_aside destination (safe_join aside_root path))
        (displace destination aside_root path)
unfolding displace mkdir Ends
displace-Leaves destination aside_root path = follow (safe_join aside_root path)
  where
    follow :
        (r : Result FilePath)
        → Leaves (moved_aside destination r) (
            lift r >>= λ displaced. call (grown (parent displaced)) >> rename destination displaced)
    follow (ok displaced) files =
        Triple-given _ _
          (λ a h.
            subst
              (λ x.
                Triple (Have files) (call (grown (parent x)) >> rename destination x)
                  (λ u. Have (moved_aside destination (ok displaced) files)) Raises)
              (ok-injective h)
              (seq-Leaves (grown (parent displaced)) (moved destination displaced) _ _
                (call-Leaves (grown (parent displaced))) (rename-Leaves destination displaced)
                files))
          (λ w p. tt)
    follow (err e) files = record { ends = λ w p. tt }

none-Leaves : Leaves (λ files. files) (λ w. (ok tt, w))
unfolding Ends
none-Leaves files = record { ends = λ w p. p }

-- A step that is taken if a test on the files holds.
when-Leaves :
    (test : Files → Bool) (effect : Files → Files) (action : Move (Unit {0}))
    → Leaves effect action
    → Leaves
        (λ files. if test files then effect files else files)
        (λ w. when (test w.files) action w)
unfolding Ends
when-Leaves test effect action inner files = record {
  ends = λ w p. follow w p (test w.files) (test files) (ap test p);
}
  where
    follow :
        (w : World Memory)
        → Have files w
        → (b c : Bool) → b ≡ c
        → Ends (λ u. Have (if c then effect files else files)) Raises (when b action w)
    follow w p true true e = (inner files).ends w p
    follow w p false false e = p
    follow w p _ _ e = cc

set_back-Leaves :
    (destination : FilePath) (moved_away : Bool) (backup : Option Text)
    → Leaves
        (set_back destination moved_away backup)
        (when moved_away (put_back_if_present destination backup))
unfolding set_back
set_back-Leaves destination false backup = none-Leaves
set_back-Leaves destination true none = none-Leaves
set_back-Leaves destination true (some backup) =
    when-Leaves (lexists (parse backup)) _ _ (put_back-Leaves (parse backup) destination)

pub roll_back_operation-Leaves :
    (destination aside_root : FilePath) (op : CommitOperation)
    → Leaves
        (λ files.
          set_back destination op.backup_moved op.backup_path
            (set_aside destination aside_root op.path op.installed files))
        (roll_back_operation destination aside_root op)
unfolding roll_back_operation set_aside
roll_back_operation-Leaves destination aside_root op files = record {
  ends = λ w p. (steps files).ends w p;
}
  where
    aside : Files → Files
    aside = set_aside destination aside_root op.path op.installed

    back : Files → Files
    back = set_back destination op.backup_moved op.backup_path

    first : Move (Unit {0})
    first w =
        when (op.installed && lexists destination w.files) (displace destination aside_root op.path)
          w

    second : Move (Unit {0})
    second = when op.backup_moved (put_back_if_present destination op.backup_path)

    steps :
        Leaves (λ before. back (aside before)) (first >> second >> set_phase (codes "rolled_back"))
    steps =
        seq-Leaves (λ before. back (aside before)) (λ before. before) _ _
          (seq-Leaves aside back first second
            (when-Leaves (λ before. op.installed && lexists destination before) _ _
              (displace-Leaves destination aside_root op.path))
            (set_back-Leaves destination op.backup_moved op.backup_path))
          (λ before. Triple-remember _ (λ w p. p))
