-- ===== src/Broker/Perform/Ordered.antt =====
-- What the commit has saved when it ends, whether it returns or raises.
use agent_workspace_guard.Base.{◌≡◌, refl, ℕ, List, Text, list_eq, nat_eq, Result, ok, err}
use agent_workspace_guard.Paths.{FilePath}
use agent_workspace_guard.FileSystem.{Files, World}
use agent_workspace_guard.FileSystem.Triples.{
  Triple-make_directory, Ends, Triple, Stable, Triple->>=, Triple-call,
}
use agent_workspace_guard.Broker.Held.Triples.{
  Triple-save, Triple-on_error, Triple-remove_state_tree,
}
use agent_workspace_guard.Broker.Held.{Held, Step}
use agent_workspace_guard.Broker.Perform.{Job, commit_plan, commit_transaction, perform, finish}
use agent_workspace_guard.Broker.Perform.States.{
  IsFresh, again, IsSaved, IsPlanSaved, IsAllSaved, Stopped, before_plan, after_plan,
  after_transaction, IsComplete-again, IsSaved-again, IsPlanSaved-again, IsAllSaved-again,
}
use agent_workspace_guard.Broker.Perform.Staged.{
  IsStaged, stage-IsStaged, clean_up-IsFresh, roll_back-IsFresh,
}
use agent_workspace_guard.Broker.Perform.Carried.{carry_out_saves}

module _ (hmac : List ℕ → Text) (digest_of : FilePath → Files → Result Text)
    (resolve : FilePath → FilePath) (copy_entry : FilePath → FilePath → Result (Unit {0}))
    (copied : Files → Files) (state_root : FilePath) (job : Job) where
  stopped :
      {handler : Step (Unit {0})}
      → Triple IsFresh handler (λ u. IsFresh) IsFresh
      → Triple IsFresh handler
          (λ u. (Stopped hmac digest_of resolve copy_entry copied state_root job))
          (Stopped hmac digest_of resolve copy_entry copied state_root job)
  unfolding Ends
  stopped t = record { ends = λ w p. weaken _ (t.ends w p) }
    where
      weaken :
          (r : Result (Unit {0}) × World Held)
          → Ends (λ u. IsFresh) IsFresh r
          → Ends
              (λ u. (Stopped hmac digest_of resolve copy_entry copied state_root job))
              (Stopped hmac digest_of resolve copy_entry copied state_root job)
              r
      weaken (ok u, v) h = before_plan h
      weaken (err e, v) h = before_plan h

  unfoldable FreshSaved : World Held → Type 0
  FreshSaved w = IsFresh w × (IsSaved hmac digest_of resolve copy_entry copied state_root job) w

  -- The saves of the plan and of the transaction, and the event.
  finish-Stopped :
      Triple FreshSaved
        (finish hmac digest_of resolve copy_entry copied state_root job)
        (λ r w.
          (IsAllSaved hmac digest_of resolve copy_entry copied state_root job) w
          × (r.operations ≡ w.memory.operations))
        (Stopped hmac digest_of resolve copy_entry copied state_root job)
  unfolding finish Stable Ends FreshSaved
  finish-Stopped =
      Triple->>= (λ u. FreshSaved) _ _
        (Triple-remove_state_tree resolve state_root job.apply_root
          (λ w files faults p. (
            again refl refl p.0,
            (IsSaved-again hmac digest_of resolve copy_entry copied state_root job) refl p.1,
          ))
          (λ w p. before_plan p.0))
        (λ u.
          Triple->>= (λ u. (IsPlanSaved hmac digest_of resolve copy_entry copied state_root job)) _
            _
            (Triple-save (commit_plan hmac digest_of resolve copy_entry copied state_root job)
              (λ w files faults p. (
                again refl refl p.0,
                (IsSaved-again hmac digest_of resolve copy_entry copied state_root job) refl p.1,
              ))
              (λ w files faults.
                (IsPlanSaved-again hmac digest_of resolve copy_entry copied state_root job) refl)
              (λ w p. record {
                saved = record {
                  status = p.1.status;
                  complete =
                      (IsComplete-again hmac digest_of resolve copy_entry copied state_root job)
                        refl p.1.complete;
                };
                plan = refl;
                transaction = p.0.transaction;
              })
              (λ w p. before_plan p.0) (λ w. after_plan))
            (λ u.
              Triple->>= (λ u. (IsAllSaved hmac digest_of resolve copy_entry copied state_root job))
                _ _
                (Triple-save
                  (commit_transaction hmac digest_of resolve copy_entry copied state_root job)
                  (λ w files faults.
                    (IsPlanSaved-again hmac digest_of resolve copy_entry copied state_root job)
                      refl)
                  (λ w files faults.
                    (IsAllSaved-again hmac digest_of resolve copy_entry copied state_root job) refl)
                  (λ w p. record {
                    saved = record {
                      status = p.saved.status;
                      complete =
                          (IsComplete-again hmac digest_of resolve copy_entry copied state_root job)
                            refl p.saved.complete;
                    };
                    plan = p.plan;
                    transaction = refl;
                  })
                  (λ w. after_plan) (λ w. after_transaction))
                (λ u.
                  Triple->>=
                    (λ u. (IsAllSaved hmac digest_of resolve copy_entry copied state_root job)) _ _
                    (Triple-call (λ files. files)
                      (λ w files faults.
                        (IsAllSaved-again hmac digest_of resolve copy_entry copied state_root job)
                          refl)
                      (λ w. after_transaction))
                    (λ u. record { ends = λ w p. (p, refl) }))))

  -- For any faults, a commit that returns has saved its record, its plan and its transaction as committed.
  pub perform-Stopped :
      Triple IsFresh
        (perform hmac digest_of resolve copy_entry copied state_root job)
        (λ r w.
          (IsAllSaved hmac digest_of resolve copy_entry copied state_root job) w
          × (r.operations ≡ w.memory.operations))
        (Stopped hmac digest_of resolve copy_entry copied state_root job)
  unfolding perform FreshSaved
  perform-Stopped =
      Triple->>= (λ u. IsFresh) _ _
        (Triple-make_directory _
          (λ w faults p. record { plan = p.plan; transaction = p.transaction })
          (λ w faults p. before_plan (record { plan = p.plan; transaction = p.transaction })))
        (λ u.
          Triple->>= (λ u. IsFresh) _ _
            (Triple-make_directory _
              (λ w faults p. record { plan = p.plan; transaction = p.transaction })
              (λ w faults p. before_plan (record { plan = p.plan; transaction = p.transaction })))
            (λ u.
              Triple->>= (λ u. (IsStaged hmac digest_of resolve copy_entry copied state_root job)) _
                _
                (Triple-on_error IsFresh _ _
                  (stage-IsStaged hmac digest_of resolve copy_entry copied state_root job)
                  (stopped
                    (clean_up-IsFresh hmac digest_of resolve copy_entry copied state_root job)))
                (λ u.
                  Triple->>= (λ u. FreshSaved) _ _
                    (Triple-on_error IsFresh _ _
                      (carry_out_saves hmac digest_of resolve copy_entry copied state_root job)
                      (stopped (
                        roll_back-IsFresh hmac digest_of resolve copy_entry copied state_root job)))
                    (λ u. finish-Stopped))))
