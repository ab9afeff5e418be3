-- ===== src/Broker/Apply/Restored.antt =====
-- A restore takes a commit back: the loop of `restore` over whatever the loop of `commit` has done.
use agent_workspace_guard.Base.{
  ◌≡◌, refl, sym, ap, ◌∙◌, subst, Bool, none, some, List, [], ◌∷◌, ◌++◌, All, ok, list_eq, nat_eq,
}
use agent_workspace_guard.Paths.{FilePath, safe_join}
use agent_workspace_guard.Models.CommitOperation.{CommitOperation}
use agent_workspace_guard.FileSystem.{Files}
use agent_workspace_guard.FileSystem.Near.{Near, Near-refl}
use agent_workspace_guard.Broker.Apply.{Progress, start, apply_operations, push_operation}
use agent_workspace_guard.Broker.Restore.{restore_operation, restored_next, restore_operations}
use agent_workspace_guard.Broker.Apply.Outcomes.{Outcome}
use agent_workspace_guard.Broker.Apply.Back.{restored}
use agent_workspace_guard.Broker.Apply.Undo.{Undone, undo, Outcome-SameTask}
use agent_workspace_guard.Broker.Apply.Places.{Places}
use agent_workspace_guard.Broker.Apply.Backwards.{
  Beside, Planned, Arranged, NewAreAbsent, AllAside, below_d, below_b, backwards-apply,
}

-- The restore went through, and each path beside the places of the commit is what it was.
pub record Restored (files : Files) (places : List Places) (r : Progress) : Type 0 where
  pub no_failure : r.failure ≡ none
  pub no_faults : r.faults ≡ []
  pub back : (path : FilePath) → AllAside places path → Near (files path) (r.files path)

restore_operations_lem :
    (workspace aside : FilePath) (op : CommitOperation) (operations : List CommitOperation)
    (end result : Files)
    → (let later = restore_operations workspace aside operations end [] in later.failure ≡ none)
    → (let later = restore_operations workspace aside operations end [] in later.faults ≡ [])
    → (let later = restore_operations workspace aside operations end [] in
        restore_operation workspace aside op (start op later.files [])
        ≡ (ok tt, start (restored op) result []))
    → restore_operations workspace aside (op ∷ operations) end [] ≡ (
        let later = restore_operations workspace aside operations end [] in
        record later { operations = restored op ∷ later.operations; files = result; faults = [] })
unfolding restore_operations
restore_operations_lem workspace aside op operations end result e f h =
    let later = restore_operations workspace aside operations end [] in
    ap
      (λ j. elim j [
        | none ↦
            restored_next later
              (restore_operation workspace aside op (start op later.files later.faults))
        | some x ↦ push_operation op later
      ])
      e
    ∙ ap
        (λ faults.
          restored_next later (restore_operation workspace aside op (start op later.files faults)))
        f
    ∙ ap (restored_next later) h

module _ (workspace apply_root aside : FilePath) where
  step :
      (files now end : Files) (operation op : CommitOperation) (p : Places) (places : List Places)
      (operations : List CommitOperation)
      → Planned workspace apply_root aside operation p
      → All (Beside p) places
      → (operation.before_kind ≡ none → (rest : FilePath) → files (p.d ++ rest) ≡ none)
      → Outcome files operation p.d p.b p.s operation.before_kind now op
      → Restored now places (restore_operations workspace aside operations end [])
      → Restored files (p ∷ places) (restore_operations workspace aside (op ∷ operations) end [])
  step files now end operation op p places operations plan beside absent o t =
      let later = restore_operations workspace aside operations end [] in
      let same = Outcome-SameTask files operation p.d p.b p.s operation.before_kind now op o in
      let target : safe_join workspace op.path ≡ ok p.d =
        ap (safe_join workspace) same.path ∙ plan.target in
      let u : Undone files operation p plan.apart workspace aside now later.files op target =
        undo files operation p plan.apart workspace aside now later.files op target
          (λ rest. t.back (p.b ++ rest) (below_b p rest places beside))
          (λ rest. t.back (p.d ++ rest) (below_d p rest places beside)) same plan.backup
          plan.displaced absent o in
      subst (Restored files (p ∷ places))
        (sym (
          restore_operations_lem workspace aside op operations end u.result t.no_failure t.no_faults
            u.restores))
        (record {
          no_failure = t.no_failure;
          no_faults = refl;
          back = λ path h. u.back path h.0 (t.back path h.1);
        })

  pub restore-apply :
      (operations : List CommitOperation) (places : List Places) (files : Files)
      (faults : List Bool)
      → Arranged workspace apply_root aside operations places
      → NewAreAbsent files operations places
      → Restored files places (
          let a = apply_operations workspace apply_root operations files faults in
          restore_operations workspace aside a.operations a.files [])
  unfolding restore_operations
  restore-apply =
      backwards-apply workspace apply_root aside Progress
        (λ operations files. restore_operations workspace aside operations files []) Restored
        (λ files. record {
          no_failure = refl;
          no_faults = refl;
          back = λ path a. Near-refl (files path);
        })
        step
