-- ===== src/Broker/Perform/Staged.antt =====
-- The payloads are staged, and the two handlers of an exception.
use agent_workspace_guard.Base.{
  ℕ, Bool, Option, List, Text, list_eq, nat_eq, Result, ok, err, stale_plan,
}
use agent_workspace_guard.Paths.{FilePath}
use agent_workspace_guard.Models.CommitOperation.{CommitOperation}
use agent_workspace_guard.FileSystem.{Files, World}
use agent_workspace_guard.FileSystem.Triples.{
  Ends, Triple, Triple->>=, Triple-lift, Triple-remember,
}
use agent_workspace_guard.Broker.Held.Triples.{Triple-remove_state_tree, Triple-expect}
use agent_workspace_guard.Broker.Held.{Held}
use agent_workspace_guard.Broker.Perform.{Job, stage, clean_up, roll_back, copy_payloads}
use agent_workspace_guard.Broker.Perform.States.{IsFresh, IsFresh-Stable, AreOfPlan}

module _ (hmac : List ℕ → Text) (digest_of : FilePath → Files → Result Text)
    (resolve : FilePath → FilePath) (copy_entry : FilePath → FilePath → Result (Unit {0}))
    (copied : Files → Files) (state_root : FilePath) (job : Job) where
  -- The operations in hand are those of the plan.
  unfoldable pub IsStaged : World Held → Type 0
  IsStaged w =
      IsFresh w
      × (AreOfPlan hmac digest_of resolve copy_entry copied state_root job) w.memory.operations

  copied-IsFresh :
      Triple IsFresh
        (copy_payloads hmac digest_of resolve copy_entry copied state_root)
        (λ u. IsFresh)
        IsFresh
  unfolding Ends
  copied-IsFresh = record { ends = λ w p. record { plan = p.plan; transaction = p.transaction } }

  pub stage-IsStaged :
      Triple IsFresh
        (stage hmac digest_of resolve copy_entry copied state_root job)
        (λ u. IsStaged)
        IsFresh
  unfolding stage AreOfPlan IsStaged
  stage-IsStaged =
      Triple->>= (λ u. IsFresh) _ _ copied-IsFresh
        (λ u.
          Triple->>=
            (λ operations w.
              IsFresh w
              × (AreOfPlan hmac digest_of resolve copy_entry copied state_root job) operations)
            _ _ (Triple-lift _ (λ operations w e p. (p, e)) (λ w p. p))
            (λ operations.
              Triple->>=
                (λ u w.
                  IsFresh w
                  × (AreOfPlan hmac digest_of resolve copy_entry copied state_root job) operations)
                _ _
                (Triple-expect digest_of job.worktree job.plan.staged_digest stale_plan (λ w e p. p)
                  (λ w p. p.0))
                (λ u.
                  Triple-remember (λ held. record held { operations = operations })
                    (λ w p. (record { plan = p.0.plan; transaction = p.0.transaction }, p.1)))))

  pub clean_up-IsFresh :
      Triple IsFresh
        (clean_up hmac digest_of resolve copy_entry copied state_root job)
        (λ u. IsFresh)
        IsFresh
  unfolding clean_up
  clean_up-IsFresh =
      Triple->>= (λ u. IsFresh) _ _
        (Triple-remove_state_tree resolve state_root job.apply_root IsFresh-Stable (λ w p. p))
        (λ u.
          Triple-remove_state_tree resolve state_root job.quarantine_root IsFresh-Stable (λ w p. p))

  pub roll_back-IsFresh :
      Triple IsFresh
        (roll_back hmac digest_of resolve copy_entry copied state_root job)
        (λ u. IsFresh)
        IsFresh
  unfolding roll_back Ends
  roll_back-IsFresh = record { ends = λ w p. follow w p _ _ _ _ _ }
    where
      follow :
          (w : World Held)
          → IsFresh w
          → (r : Result (Unit {0})) (files : Files) (faults : List Bool)
            (operations : List CommitOperation) (status : Option Text)
          → Ends {A = Unit {0}}
              (λ u. IsFresh)
              IsFresh
              (
                r,
                record {
                  files = files;
                  faults = faults;
                  memory = record w.memory { operations = operations; commit_status = status };
                },
              )
      follow w p (ok u) files faults operations status = record {
        plan = p.plan;
        transaction = p.transaction;
      }
      follow w p (err e) files faults operations status = record {
        plan = p.plan;
        transaction = p.transaction;
      }
