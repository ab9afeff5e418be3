-- ===== src/Broker/Apply/Outcomes.antt =====
-- What one operation of a commit leaves behind, whether or not it raises.
use agent_workspace_guard.Base.{
  ◌≡◌, ◌⊎◌, inl, inr, refl, Bool, true, false, Option, none, some, List, [], ◌∷◌, Text, codes,
  stale_plan, arith, starts_with, any, list_eq, nat_eq,
}
use agent_workspace_guard.Paths.{FilePath, parse, parent}
use agent_workspace_guard.Models.Enums.{EntryKind}
use agent_workspace_guard.Models.CommitOperation.{CommitOperation}
use agent_workspace_guard.FileSystem.{Files, lexists, World, moved, grown, mkdir}
use agent_workspace_guard.FileSystem.Moves.{Like, Like-refl, Like-grown}
use agent_workspace_guard.Broker.Apply.{is_set, back_up, install}
use agent_workspace_guard.Broker.Apply.Ends.{
  Ends, After, Raised, Ends-continue, Ends-call, Ends-rename, SameTask, Ends-require, Ends-other,
}

-- One operation, from the files that it meets: its destination, its backup and its payload.
module _ (files : Files) (operation : CommitOperation) (d b s : FilePath) where
  abbrev pub folders : List FilePath
  folders = parent b ∷ parent d ∷ []

  -- Nothing has been moved.
  pub record Untouched (now : Files) (op : CommitOperation) : Type 0 where
    pub same : SameTask operation op
    pub like : Like folders files now
    pub not_moved : op.backup_moved ≡ false
    pub not_installed : op.installed ≡ false

  -- The old target lies in the quarantine.
  pub record Backed (flag : Bool) (now : Files) (op : CommitOperation) : Type 0 where
    pub same : SameTask operation op
    pub before : Files
    pub before_like : Like folders files before
    pub there : lexists d before ≡ true
    pub like : Like folders (moved d b before) now
    pub is_moved : op.backup_moved ≡ flag
    pub not_installed : op.installed ≡ false

  -- The payload lies in the workspace: from files `m` where the target was out of the way.
  pub record Installed (m : Files) (was_moved flag : Bool) (now : Files) (op : CommitOperation)
      : Type 0 where
    pub same : SameTask operation op
    pub before : Files
    pub before_like : Like folders m before
    pub there : lexists s before ≡ true
    pub like : Like folders (moved s d before) now
    pub is_moved : op.backup_moved ≡ was_moved
    pub is_installed : op.installed ≡ flag

  unfoldable pub UntouchedOrBacked : Files → CommitOperation → Type 0
  UntouchedOrBacked now op = Untouched now op ⊎ Backed true now op

  Untouched-grown :
      (now : Files) (op : CommitOperation) (folder : FilePath)
      → ((path : FilePath)
          → starts_with folder path ≡ true
          → any (λ f. starts_with f path) folders ≡ true)
      → Untouched now op
      → Untouched (grown folder now) op
  Untouched-grown now op folder within u = record {
    same = u.same;
    like = Like-grown folders folder files now within u.like;
    not_moved = u.not_moved;
    not_installed = u.not_installed;
  }

  Untouched-phase :
      (now : Files) (op : CommitOperation) (phase : Text)
      → Untouched now op
      → Untouched now (record op { phase = phase })
  Untouched-phase now op phase u = record {
    same = record { path = u.same.path; backup_path = u.same.backup_path };
    like = u.like;
    not_moved = u.not_moved;
    not_installed = u.not_installed;
  }

  Backed-of_Untouched :
      (now : Files) (op : CommitOperation)
      → Untouched now op
      → lexists d now ≡ true
      → Backed false (moved d b now) op
  Backed-of_Untouched now op u there = record {
    same = u.same;
    before = now;
    before_like = u.like;
    there = there;
    like = Like-refl folders (moved d b now);
    is_moved = u.not_moved;
    not_installed = u.not_installed;
  }

  Backed-flagged :
      (now : Files) (op : CommitOperation) (phase : Text)
      → Backed false now op
      → Backed true now (record op { backup_moved = true; phase = phase })
  Backed-flagged now op phase h = record {
    same = record { path = h.same.path; backup_path = h.same.backup_path };
    before = h.before;
    before_like = h.before_like;
    there = h.there;
    like = h.like;
    is_moved = refl;
    not_installed = h.not_installed;
  }

  pub back_up-Backed :
      (w : World CommitOperation)
      → Untouched w.files w.memory
      → Ends (After (Backed true)) (Raised UntouchedOrBacked) (back_up d b w)
  unfolding back_up mkdir UntouchedOrBacked
  back_up-Backed w u =
      Ends-continue Untouched (Backed true) UntouchedOrBacked _ _
        (Ends-require Untouched UntouchedOrBacked d stale_plan w u (inl u))
        λ w1 u1.
          Ends-continue Untouched (Backed true) UntouchedOrBacked _ _
            (Ends-call Untouched UntouchedOrBacked (grown (parent b)) w1
              (Untouched-grown w1.files w1.memory (parent b) (λ path e. ground (arith, e)) u1)
              (inl u1))
            λ w2 u2.
              let u3 = Untouched-phase w2.files w2.memory (codes "moving_backup") u2 in
              Ends-other Untouched (Backed true) UntouchedOrBacked
                (record w2 { memory = record w2.memory { phase = codes "moving_backup" } }) _ u3
                (inl u3)
                λ w4 u4.
                  Ends-continue (Backed false) (Backed true) UntouchedOrBacked _ _
                    (Ends-rename (Backed false) UntouchedOrBacked d b w4
                      (Backed-of_Untouched w4.files w4.memory u4) (inl u4))
                    λ w5 h5.
                      let h6 = Backed-flagged w5.files w5.memory (codes "backup_moved") h5 in
                      Ends-other (Backed true) (Backed true) UntouchedOrBacked
                        (record w5 {
                          memory = record w5.memory {
                            backup_moved = true;
                            phase = codes "backup_moved";
                          };
                        })
                        _ h6 (inr h6)
                        λ w7 h7.
                          Ends-other (Backed true) (Backed true) UntouchedOrBacked w7 _ h7 (inr h7)
                            λ w8 h8.
                              Ends-call (Backed true) UntouchedOrBacked (λ f. f) w8 h8 (inr h8)

  -- The second half, from a world whose operation may have been backed up.
  unfoldable pub Ready : Files → Bool → Files → CommitOperation → Type 0
  Ready m was_moved now op =
      SameTask operation op
      × Like folders m now
      × (op.backup_moved ≡ was_moved)
      × (op.installed ≡ false)

  unfoldable pub ReadyOrInstalled : Files → Bool → Files → CommitOperation → Type 0
  ReadyOrInstalled m was_moved now op = Ready m was_moved now op ⊎ Installed m was_moved true now op

  pub install-Installed :
      (m : Files) (was_moved : Bool) (w : World CommitOperation)
      → Ready m was_moved w.files w.memory
      → Ends
          (After (Installed m was_moved true))
          (Raised (ReadyOrInstalled m was_moved))
          (install s d w)
  unfolding install mkdir Ready ReadyOrInstalled
  install-Installed m was_moved w r =
      let R = Ready m was_moved in
      let I = Installed m was_moved in
      let E = ReadyOrInstalled m was_moved in
      Ends-continue R (I true) E _ _
        (Ends-call R E (grown (parent d)) w
          (r.0, Like-grown folders (parent d) m w.files (λ path e. ground (arith, e)) r.1, r.2, r.3)
          (inl r))
        λ w2 r2.
          let r3 : R w2.files (record w2.memory { phase = codes "installing" }) =
            (record { path = r2.0.path; backup_path = r2.0.backup_path }, r2.1, r2.2, r2.3) in
          Ends-other R (I true) E
            (record w2 { memory = record w2.memory { phase = codes "installing" } }) _ r3 (inl r3)
            λ w4 r4.
              Ends-continue (I false) (I true) E _ _
                (Ends-rename (I false) E s d w4
                  (λ there. record {
                    same = r4.0;
                    before = w4.files;
                    before_like = r4.1;
                    there = there;
                    like = Like-refl folders (moved s d w4.files);
                    is_moved = r4.2;
                    is_installed = r4.3;
                  })
                  (inl r4))
                λ w5 h5.
                  let h6 : I true w5.files
                      (record w5.memory { installed = true; phase = codes "installed" }) =
                    record {
                      same = record { path = h5.same.path; backup_path = h5.same.backup_path };
                      before = h5.before;
                      before_like = h5.before_like;
                      there = h5.there;
                      like = h5.like;
                      is_moved = h5.is_moved;
                      is_installed = refl;
                    } in
                  Ends-other (I true) (I true) E
                    (record w5 {
                      memory = record w5.memory { installed = true; phase = codes "installed" };
                    })
                    _ h6 (inr h6) λ w7 h7. Ends-call (I true) E (λ f. f) w7 h7 (inr h7)

  -- The payload lies where the old target was, which lies in the quarantine.
  pub record Replaced (now : Files) (op : CommitOperation) : Type 0 where
    pub middle : Files
    pub middle_op : CommitOperation
    pub backed : Backed true middle middle_op
    pub installed : Installed middle true true now op

  -- The payload lies where nothing was planned to be.
  pub record Added (before_kind : Option EntryKind) (now : Files) (op : CommitOperation)
      : Type 0 where
    pub new : before_kind ≡ none
    pub middle : Files
    pub like : Like folders files middle
    pub installed : Installed middle false true now op

  -- Whatever happens, the flags of the operation tell what has happened to the files.
  pub data Outcome (before_kind : Option EntryKind) (now : Files) (op : CommitOperation)
      : Type 0 where
    untouched : Untouched now op → Outcome before_kind now op
    backed : is_set before_kind ≡ true → Backed true now op → Outcome before_kind now op
    replaced : is_set before_kind ≡ true → Replaced now op → Outcome before_kind now op
    added : Added before_kind now op → Outcome before_kind now op

-- The backup path of a planned target, in the quarantine.
abbrev pub IsBackup : Option EntryKind → Option Text → FilePath → Type 0
IsBackup none backup b = Unit
IsBackup (some kind) none b = ⊥
IsBackup (some kind) (some backup) b = parse backup ≡ b
