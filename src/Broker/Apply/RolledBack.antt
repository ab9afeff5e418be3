-- ===== src/Broker/Apply/RolledBack.antt =====
-- A commit that raises is taken back: the rollback of whatever the loop of `commit` has done.
use agent_workspace_guard.Base.{
  ◌≡◌, refl, sym, ap, ◌∙◌, subst, Bool, none, some, List, [], ◌∷◌, ◌++◌, All, ok, err, list_eq,
  nat_eq,
}
use agent_workspace_guard.Paths.{FilePath, safe_join}
use agent_workspace_guard.Models.CommitOperation.{CommitOperation}
use agent_workspace_guard.FileSystem.{Files}
use agent_workspace_guard.FileSystem.Near.{Near, Near-refl}
use agent_workspace_guard.Broker.Apply.{start, apply_operations}
use agent_workspace_guard.Broker.Rollback.{
  roll_back_operation, Rollback, settle, roll_back_next, roll_back_operations,
}
use agent_workspace_guard.Broker.Apply.Outcomes.{Outcome}
use agent_workspace_guard.Broker.Apply.Back.{rolled_back}
use agent_workspace_guard.Broker.Apply.Undo.{Undone, undo, Outcome-SameTask}
use agent_workspace_guard.Broker.Apply.Places.{Places}
use agent_workspace_guard.Broker.Apply.Backwards.{
  Beside, Planned, Arranged, NewAreAbsent, AllAside, below_d, below_b, backwards-apply,
}

-- The rollback went through, and each path beside the places of the commit is what it was.
pub record TakenBack (files : Files) (places : List Places) (r : Rollback) : Type 0 where
  pub no_failure : r.failure ≡ none
  pub no_errors : r.errors ≡ []
  pub no_faults : r.faults ≡ []
  pub back : (path : FilePath) → AllAside places path → Near (files path) (r.files path)

module _ (workspace apply_root aside : FilePath) where
  roll_back_next_lem :
      (op : CommitOperation) (later : Rollback) (d : FilePath) (result : Files)
      → safe_join workspace op.path ≡ ok d
      → later.faults ≡ []
      → roll_back_operation d aside op (start op later.files [])
        ≡ (ok tt, start (rolled_back op) result [])
      → roll_back_next workspace aside op later ≡ record later {
        operations = rolled_back op ∷ later.operations;
        files = result;
        faults = [];
      }
  unfolding roll_back_next
  roll_back_next_lem op later d result e f h =
      ap
        (λ j. elim j [
          | err x ↦ record later { operations = op ∷ later.operations; failure = some x }
          | ok destination ↦
              settle op.path later
                (roll_back_operation destination aside op (start op later.files later.faults))
        ])
        e
      ∙ ap
          (λ faults.
            settle op.path later (roll_back_operation d aside op (start op later.files faults)))
          f
      ∙ ap (settle op.path later) h

  -- One more step back.
  step :
      (files now : Files) (operation op : CommitOperation) (p : Places) (places : List Places)
      (later : Rollback)
      → Planned workspace apply_root aside operation p
      → All (Beside p) places
      → (operation.before_kind ≡ none → (rest : FilePath) → files (p.d ++ rest) ≡ none)
      → Outcome files operation p.d p.b p.s operation.before_kind now op
      → TakenBack now places later
      → TakenBack files (p ∷ places) (roll_back_next workspace aside op later)
  step files now operation op p places later plan beside absent o t =
      let same = Outcome-SameTask files operation p.d p.b p.s operation.before_kind now op o in
      let target : safe_join workspace op.path ≡ ok p.d =
        ap (safe_join workspace) same.path ∙ plan.target in
      let u : Undone files operation p plan.apart workspace aside now later.files op target =
        undo files operation p plan.apart workspace aside now later.files op target
          (λ rest. t.back (p.b ++ rest) (below_b p rest places beside))
          (λ rest. t.back (p.d ++ rest) (below_d p rest places beside)) same plan.backup
          plan.displaced absent o in
      let e : roll_back_next workspace aside op later ≡ record later {
        operations = rolled_back op ∷ later.operations;
        files = u.result;
        faults = [];
      } =
        roll_back_next_lem op later p.d u.result target t.no_faults u.steps in
      subst (TakenBack files (p ∷ places)) (sym e) (record {
        no_failure = t.no_failure;
        no_errors = t.no_errors;
        no_faults = refl;
        back = λ path h. u.back path h.0 (t.back path h.1);
      })

  step_list :
      (files now end : Files) (operation op : CommitOperation) (p : Places) (places : List Places)
      (operations : List CommitOperation)
      → Planned workspace apply_root aside operation p
      → All (Beside p) places
      → (operation.before_kind ≡ none → (rest : FilePath) → files (p.d ++ rest) ≡ none)
      → Outcome files operation p.d p.b p.s operation.before_kind now op
      → TakenBack now places (roll_back_operations workspace aside operations end [])
      → TakenBack files (p ∷ places) (roll_back_operations workspace aside (op ∷ operations) end [])
  unfolding roll_back_operations
  step_list files now end operation op p places operations plan beside absent o t =
      let e = t.no_failure in
      rw e (
        step files now operation op p places
          (roll_back_operations workspace aside operations end []) plan beside absent o t)

  pub roll_back-apply :
      (operations : List CommitOperation) (places : List Places) (files : Files)
      (faults : List Bool)
      → Arranged workspace apply_root aside operations places
      → NewAreAbsent files operations places
      → TakenBack files places (
          let a = apply_operations workspace apply_root operations files faults in
          roll_back_operations workspace aside a.operations a.files [])
  unfolding roll_back_operations
  roll_back-apply =
      backwards-apply workspace apply_root aside Rollback
        (λ operations files. roll_back_operations workspace aside operations files []) TakenBack
        (λ files. record {
          no_failure = refl;
          no_errors = refl;
          no_faults = refl;
          back = λ path a. Near-refl (files path);
        })
        step_list
