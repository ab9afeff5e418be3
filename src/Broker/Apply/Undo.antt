-- ===== src/Broker/Apply/Undo.antt =====
-- One step of the rollback takes back what one operation has done.
use agent_workspace_guard.Base.{
  ◌≡◌, inl, inr, refl, sym, ap, ◌∙◌, subst, append-nil, Bool-cases, true, false, Option, none, some,
  [], ◌∷◌, ◌++◌, Text, ok, starts_with, list_eq, nat_eq,
}
use agent_workspace_guard.Paths.{FilePath, parse, parent, safe_join}
use agent_workspace_guard.Models.Enums.{EntryKind}
use agent_workspace_guard.Models.CommitOperation.{CommitOperation}
use agent_workspace_guard.FileSystem.{Files, grown}
use agent_workspace_guard.FileSystem.Moves.{
  starts_with_split, starts_with-Separate, moved_source, Like,
}
use agent_workspace_guard.FileSystem.Near.{Near, ◌▹◌, Like-Near, lexists-Near, Separate-sym}
use agent_workspace_guard.Broker.Apply.{is_set, start}
use agent_workspace_guard.Broker.Rollback.{roll_back_operation}
use agent_workspace_guard.Broker.Restore.{restore_operation}
use agent_workspace_guard.Broker.Apply.Ends.{SameTask}
use agent_workspace_guard.Broker.Apply.Outcomes.{
  Untouched, Backed, Installed, Replaced, Outcome, untouched, backed, replaced, added, IsBackup,
}
use agent_workspace_guard.Broker.Apply.Back.{
  relocated, rolled_back, roll_back_untouched, roll_back_backed, roll_back_added,
  roll_back_replaced, restored, restore_untouched, restore_backed, restore_added, restore_replaced,
}
use agent_workspace_guard.Broker.Apply.Places.{
  Places, Apart, Aside, relocated_beside, relocated_below, backed_beside, backed_below,
  backed_there, installed_beside, installed_there,
}

Near-root :
    (old new : Files) (root : FilePath)
    → ((rest : FilePath) → Near (old (root ++ rest)) (new (root ++ rest)))
    → Near (old root) (new root)
Near-root old new root h = subst (λ path. Near (old path) (new path)) (append-nil root) (h [])

-- By where a path lies.
by_place :
    (P : FilePath → Type 0) (root path : FilePath)
    → ((rest : FilePath) → P (root ++ rest))
    → (starts_with path root ≡ false → P path)
    → P path
by_place P root path below beside = elim (Bool-cases (starts_with path root)) [
  | inl b ↦ let (rest, e) = starts_with_split path root b in subst P (sym e) (below rest)
  | inr c ↦ beside c
]

-- The step back from the files `now` that an operation left, and from `later`, which later steps back
-- have made of them.
module _ (files : Files) (operation : CommitOperation) (p : Places) (a : Apart p)
    (workspace aside : FilePath) (now later : Files) (op : CommitOperation)
    (target : safe_join workspace op.path ≡ ok p.d) where
  pub record Undone : Type 0 where
    pub result : Files
    pub steps :
        roll_back_operation p.d aside op (start op later [])
        ≡ (ok tt, start (rolled_back op) result [])
    pub restores :
        restore_operation workspace aside op (start op later [])
        ≡ (ok tt, start (restored op) result [])
    pub back :
        (path : FilePath)
        → Aside p path
        → Near (now path) (later path)
        → Near (files path) (result path)

  undo_untouched : Untouched files operation p.d p.b p.s now op → Undone
  undo_untouched u = record {
    result = later;
    steps = roll_back_untouched p.d p.b p.x aside op later u.not_installed u.not_moved;
    restores =
        restore_untouched workspace p.d p.b p.x aside op later target u.not_installed u.not_moved;
    back = λ path h near. Like-Near (parent p.b ∷ parent p.d ∷ []) files now u.like path ▹ near;
  }

  module _ (near_b : (rest : FilePath) → Near (now (p.b ++ rest)) (later (p.b ++ rest)))
      (near_d : (rest : FilePath) → Near (now (p.d ++ rest)) (later (p.d ++ rest))) where
    undo_backed :
        (t : Text)
        → op.backup_path ≡ some t
        → parse t ≡ p.b
        → Backed files operation p.d p.b p.s true now op
        → Undone
    undo_backed t e j k = record {
      result = relocated p.b p.d later;
      steps = roll_back_backed p.d p.b p.x aside op later t k.not_installed k.is_moved e j (
          lexists-Near p.b now later (Near-root now later p.b near_b)
            (backed_there files operation p a now op k));
      restores =
          restore_backed workspace p.d p.b p.x aside op later target t k.not_installed k.is_moved e
            j
            (lexists-Near p.b now later (Near-root now later p.b near_b)
              (backed_there files operation p a now op k));
      back = λ path h near.
          by_place (λ q. Near (files q) (relocated p.b p.d later q)) p.d path
            (λ rest.
              backed_below files operation p a now op rest k
              ▹ near_b rest
              ▹ relocated_below p.b p.d rest later)
            (λ c.
              backed_beside files operation p a now op path k c h.from_b
              ▹ near
              ▹ relocated_beside p.b p.d path later h.from_b c);
    }

    undo_added :
        safe_join aside op.path ≡ ok p.x
        → ((rest : FilePath) → files (p.d ++ rest) ≡ none)
        → (m : Files) → Like (parent p.b ∷ parent p.d ∷ []) files m
        → Installed files operation p.d p.b p.s m false true now op
        → Undone
    undo_added e absent m like k = record {
      result = relocated p.d p.x later;
      steps = roll_back_added p.d p.b p.x aside op later k.is_installed k.is_moved e (
          lexists-Near p.d now later (Near-root now later p.d near_d)
            (installed_there files operation p a m now false op k));
      restores =
          restore_added workspace p.d p.b p.x aside op later target k.is_installed k.is_moved e (
            lexists-Near p.d now later (Near-root now later p.d near_d)
              (installed_there files operation p a m now false op k));
      back = λ path h near.
          by_place (λ q. Near (files q) (relocated p.d p.x later q)) p.d path
            (λ rest.
              inl (moved_source p.d p.x rest (grown (parent p.x) later) a.d_x ∙ sym (absent rest)))
            (λ c.
              Like-Near (parent p.b ∷ parent p.d ∷ []) files m like path
              ▹ installed_beside files operation p a m now false op path k c h.from_s
              ▹ near
              ▹ relocated_beside p.d p.x path later c h.from_x);
    }

    -- What lies in the backup stays there while the payload comes and goes.
    backup_kept :
        (m : Files) (o : CommitOperation) (rest : FilePath)
        → Installed files operation p.d p.b p.s m true true now o
        → Near (m (p.b ++ rest)) (relocated p.d p.x later (p.b ++ rest))
    backup_kept m o rest k =
        installed_beside files operation p a m now true o (p.b ++ rest) k
          (starts_with-Separate p.b p.d rest (Separate-sym p.d p.b a.d_b))
          (starts_with-Separate p.b p.s rest a.b_s)
        ▹ near_b rest
        ▹ relocated_beside p.d p.x (p.b ++ rest) later
            (starts_with-Separate p.b p.d rest (Separate-sym p.d p.b a.d_b))
            (starts_with-Separate p.b p.x rest a.b_x)

    undo_replaced :
        (t : Text)
        → op.backup_path ≡ some t
        → parse t ≡ p.b
        → safe_join aside op.path ≡ ok p.x
        → Replaced files operation p.d p.b p.s now op
        → Undone
    undo_replaced t e j f k = record {
      result = relocated p.b p.d (relocated p.d p.x later);
      steps =
          roll_back_replaced p.d p.b p.x aside op later t k.installed.is_installed
            k.installed.is_moved e j f
            (lexists-Near p.d now later (Near-root now later p.d near_d)
              (installed_there files operation p a k.middle now true op k.installed))
            (lexists-Near p.b k.middle (relocated p.d p.x later)
              (Near-root k.middle (relocated p.d p.x later) p.b
                (λ rest. backup_kept k.middle op rest k.installed))
              (backed_there files operation p a k.middle k.middle_op k.backed));
      restores =
          restore_replaced workspace p.d p.b p.x aside op later target t k.installed.is_installed
            k.installed.is_moved e j f
            (lexists-Near p.d now later (Near-root now later p.d near_d)
              (installed_there files operation p a k.middle now true op k.installed))
            (lexists-Near p.b k.middle (relocated p.d p.x later)
              (Near-root k.middle (relocated p.d p.x later) p.b
                (λ rest. backup_kept k.middle op rest k.installed))
              (backed_there files operation p a k.middle k.middle_op k.backed));
      back = λ path h near.
          by_place (λ q. Near (files q) (relocated p.b p.d (relocated p.d p.x later) q)) p.d path
            (λ rest.
              backed_below files operation p a k.middle k.middle_op rest k.backed
              ▹ backup_kept k.middle op rest k.installed
              ▹ relocated_below p.b p.d rest (relocated p.d p.x later))
            (λ c.
              backed_beside files operation p a k.middle k.middle_op path k.backed c h.from_b
              ▹ installed_beside files operation p a k.middle now true op path k.installed c
                  h.from_s
              ▹ near
              ▹ relocated_beside p.d p.x path later c h.from_x
              ▹ relocated_beside p.b p.d path (relocated p.d p.x later) h.from_b c);
    }

-- The path of an operation's backup, if it had a target.
backup_of :
    (before_kind : Option EntryKind) (backup : Option Text) (b : FilePath)
    → is_set before_kind ≡ true
    → IsBackup before_kind backup b
    → (t : Text) × (backup ≡ some t) × (parse t ≡ b)
backup_of none backup b set k = cc
backup_of (some kind) none b set k = elim k [ ]
backup_of (some kind) (some t) b set k = (t, refl, k)

-- From any outcome.
pub undo :
    (files : Files) (operation : CommitOperation) (p : Places) (a : Apart p)
    (workspace aside : FilePath) (now later : Files) (op : CommitOperation)
    (target : safe_join workspace op.path ≡ ok p.d)
    → ((rest : FilePath) → Near (now (p.b ++ rest)) (later (p.b ++ rest)))
    → ((rest : FilePath) → Near (now (p.d ++ rest)) (later (p.d ++ rest)))
    → SameTask operation op
    → IsBackup operation.before_kind operation.backup_path p.b
    → safe_join aside operation.path ≡ ok p.x
    → (operation.before_kind ≡ none → (rest : FilePath) → files (p.d ++ rest) ≡ none)
    → Outcome files operation p.d p.b p.s operation.before_kind now op
    → Undone files operation p a workspace aside now later op target
undo files operation p a workspace aside now later op target near_b near_d same k e absent
      (untouched u) =
    undo_untouched files operation p a workspace aside now later op target u
undo files operation p a workspace aside now later op target near_b near_d same k e absent
      (backed set h) =
    let (t, f, j) = backup_of operation.before_kind operation.backup_path p.b set k in
    undo_backed files operation p a workspace aside now later op target near_b near_d t
      (same.backup_path ∙ f) j h
undo files operation p a workspace aside now later op target near_b near_d same k e absent
      (replaced set h) =
    let (t, f, j) = backup_of operation.before_kind operation.backup_path p.b set k in
    undo_replaced files operation p a workspace aside now later op target near_b near_d t
      (same.backup_path ∙ f) j (ap (safe_join aside) same.path ∙ e) h
undo files operation p a workspace aside now later op target near_b near_d same k e absent
      (added h) =
    undo_added files operation p a workspace aside now later op target near_b near_d
      (ap (safe_join aside) same.path ∙ e) (absent h.new) h.middle h.like h.installed

pub Outcome-SameTask :
    (files : Files) (operation : CommitOperation) (d b s : FilePath)
    (before_kind : Option EntryKind) (now : Files) (op : CommitOperation)
    → Outcome files operation d b s before_kind now op
    → SameTask operation op
Outcome-SameTask files operation d b s before_kind now op (untouched u) = u.same
Outcome-SameTask files operation d b s before_kind now op (backed set h) = h.same
Outcome-SameTask files operation d b s before_kind now op (replaced set h) = h.installed.same
Outcome-SameTask files operation d b s before_kind now op (added h) = h.installed.same
