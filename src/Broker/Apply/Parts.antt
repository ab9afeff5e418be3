-- ===== src/Broker/Apply/Parts.antt =====
-- What one operation of a commit leaves behind, from its two halves.
use agent_workspace_guard.Base.{
  ◌≡◌, inl, inr, refl, sym, subst, Bool, true, false, Option, none, some, List, [], ◌∷◌, Text,
  list_eq, nat_eq,
}
use agent_workspace_guard.Paths.{FilePath, parent}
use agent_workspace_guard.Models.Enums.{EntryKind}
use agent_workspace_guard.Models.CommitOperation.{CommitOperation}
use agent_workspace_guard.FileSystem.{Files, World, continue, when, moved}
use agent_workspace_guard.FileSystem.Moves.{Like, Like-refl, Like-trans}
use agent_workspace_guard.Broker.Apply.{is_set, back_up, install, apply_parts, start}
use agent_workspace_guard.Broker.Apply.Ends.{Ends, Holds, After, Raised, Ends-continue, weaken}
use agent_workspace_guard.Broker.Apply.Outcomes.{
  Untouched, Backed, Installed, UntouchedOrBacked, back_up-Backed, Ready, ReadyOrInstalled,
  install-Installed, Outcome, untouched, backed, replaced, added, IsBackup,
}

module _ (files : Files) (operation : CommitOperation) (d b s : FilePath) where
  abbrev Ended : Option EntryKind → Holds
  Ended before_kind = Outcome files operation d b s before_kind

  from_ready :
      (before_kind : Option EntryKind) (now : Files) (op : CommitOperation)
      → before_kind ≡ none
      → ReadyOrInstalled files operation d b s files false now op
      → Ended before_kind now op
  unfolding ReadyOrInstalled Ready
  from_ready before_kind now op new (inl (same, like, a, c)) =
      untouched (record { same = same; like = like; not_moved = a; not_installed = c })
  from_ready before_kind now op new (inr i) = added (record {
    new = new;
    middle = files;
    like = Like-refl (parent b ∷ parent d ∷ []) files;
    installed = i;
  })

  from_backed :
      (before_kind : Option EntryKind) (m : Files) (o : CommitOperation)
      → is_set before_kind ≡ true
      → Backed files operation d b s true m o
      → (now : Files) (op : CommitOperation) → ReadyOrInstalled files operation d b s m true now op
      → Ended before_kind now op
  unfolding ReadyOrInstalled Ready
  from_backed before_kind m o set k now op (inl (same, like, a, c)) = backed set (record {
    same = same;
    before = k.before;
    before_like = k.before_like;
    there = k.there;
    like = Like-trans (parent b ∷ parent d ∷ []) (moved d b k.before) m now k.like like;
    is_moved = a;
    not_installed = c;
  })
  from_backed before_kind m o set k now op (inr i) =
      replaced set (record { middle = m; middle_op = o; backed = k; installed = i })

  second_half :
      (before_kind after_kind : Option EntryKind) (w : World CommitOperation)
      → is_set before_kind ≡ true
      → Backed files operation d b s true w.files w.memory
      → Ends
          (After (Ended before_kind))
          (Raised (Ended before_kind))
          (when (is_set after_kind) (install s d) w)
  unfolding Ready
  second_half before_kind none w set k = backed set k
  second_half before_kind (some kind) w set k =
      weaken (Installed files operation d b s w.files true true) (Ended before_kind)
        (ReadyOrInstalled files operation d b s w.files true) (Ended before_kind) _
        (λ now op i.
          from_backed before_kind w.files w.memory set k now op (unfold ReadyOrInstalled in inr i))
        (λ now op e. from_backed before_kind w.files w.memory set k now op e)
        (install-Installed files operation d b s w.files true w
          (k.same, Like-refl (parent b ∷ parent d ∷ []) w.files, k.is_moved, k.not_installed))

  install_only :
      (w : World CommitOperation)
      → Untouched files operation d b s files w.memory
      → w.files ≡ files
      → Ends (After (Ended none)) (Raised (Ended none)) (install s d w)
  unfolding Ready
  install_only w u e =
      weaken (Installed files operation d b s files false true) (Ended none)
        (ReadyOrInstalled files operation d b s files false) (Ended none) _
        (λ now op i. from_ready none now op refl (unfold ReadyOrInstalled in inr i))
        (λ now op r. from_ready none now op refl r)
        (install-Installed files operation d b s files false w (
          u.same,
          subst (λ f. Like (parent b ∷ parent d ∷ []) files f) (sym e) u.like,
          u.not_moved,
          u.not_installed,
        ))

  from_back_up :
      (before_kind : Option EntryKind) (now : Files) (op : CommitOperation)
      → is_set before_kind ≡ true
      → UntouchedOrBacked files operation d b s now op
      → Ended before_kind now op
  unfolding UntouchedOrBacked
  from_back_up before_kind now op set (inl u) = untouched u
  from_back_up before_kind now op set (inr k) = backed set k

  intact :
      (now : Files)
      → operation.backup_moved ≡ false
      → operation.installed ≡ false
      → now ≡ files
      → Untouched files operation d b s now operation
  intact now a c e = record {
    same = record { path = refl; backup_path = refl };
    like =
        subst (λ f. Like (parent b ∷ parent d ∷ []) files f) (sym e)
          (Like-refl (parent b ∷ parent d ∷ []) files);
    not_moved = a;
    not_installed = c;
  }

  back_up_first :
      (before_kind after_kind : Option EntryKind) (w : World CommitOperation)
      → is_set before_kind ≡ true
      → Untouched files operation d b s w.files w.memory
      → Ends
          (After (Ended before_kind))
          (Raised (Ended before_kind))
          (continue (back_up d b w) (λ _. when (is_set after_kind) (install s d)))
  back_up_first before_kind after_kind w set u =
      Ends-continue (Backed files operation d b s true) (Ended before_kind) (Ended before_kind)
        (back_up d b w) (when (is_set after_kind) (install s d))
        (weaken (Backed files operation d b s true) (Backed files operation d b s true)
          (UntouchedOrBacked files operation d b s) (Ended before_kind) (back_up d b w)
          (λ now op k. k) (λ now op e. from_back_up before_kind now op set e)
          (back_up-Backed files operation d b s w u))
        (λ now k. second_half before_kind after_kind now set k)

  -- One operation of a commit that has not begun, with any faults: whether it returns or raises, either no
  -- flag is set and only missing directories are new; or `backup_moved` alone is set, and the old target
  -- lies at the backup; or both flags are set, and the payload lies where the old target was, which lies at
  -- the backup; or `installed` alone is set, nothing was planned to be there, and the payload lies there.
  pub apply_parts-Outcome :
      (before_kind after_kind : Option EntryKind) (backup_path : Option Text) (faults : List Bool)
      → IsBackup before_kind backup_path b
      → operation.backup_moved ≡ false
      → operation.installed ≡ false
      → Ends
          (After (Ended before_kind))
          (Raised (Ended before_kind))
          (apply_parts d s before_kind backup_path after_kind (start operation files faults))
  unfolding apply_parts
  apply_parts-Outcome none none backup_path faults k a c = untouched (intact files a c refl)
  apply_parts-Outcome none (some kind) backup_path faults k a c =
      install_only (start operation files faults) (intact files a c refl) refl
  apply_parts-Outcome (some before) after_kind none faults k a c = elim k [ ]
  apply_parts-Outcome (some before) after_kind (some backup) faults k a c =
      subst
        (λ x. Ends (After (Ended (some before))) (Raised (Ended (some before))) (
          continue (back_up d x (start operation files faults))
            (λ _. when (is_set after_kind) (install s d))))
        (sym k)
        (back_up_first (some before) after_kind (start operation files faults) refl
          (intact files a c refl))
