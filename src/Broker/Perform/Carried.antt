-- ===== src/Broker/Perform/Carried.antt =====
-- The loop of a commit and the saves of its record.
use agent_workspace_guard.Base.{
  ◌≡◌, refl, sym, ap, ◌∙◌, ℕ, Bool, Option, none, some, List, Text, codes, list_eq, nat_eq, Result,
  ok, Error, integrity_error,
}
use agent_workspace_guard.Paths.{FilePath}
use agent_workspace_guard.Models.CommitOperation.{CommitOperation}
use agent_workspace_guard.Signer.{sign}
use agent_workspace_guard.FileSystem.{Files, World}
use agent_workspace_guard.FileSystem.Triples.{Ends, Triple, Stable, Triple->>=, Triple-remember}
use agent_workspace_guard.Broker.Load.{commit_payload}
use agent_workspace_guard.Broker.Apply.{apply_operations}
use agent_workspace_guard.Broker.Held.Triples.{Triple-save, Triple-sign_with, Triple-expect}
use agent_workspace_guard.Broker.Held.{Held, set_status, ended, after_loop}
use agent_workspace_guard.Broker.Perform.{
  Job, complete_all, apply_all, carry_out, record_of, save_commit, after_loop,
}
use agent_workspace_guard.Broker.Perform.States.{
  IsFresh, again, AreOfPlan, IsApplied, IsComplete, IsSaved, IsComplete-again, IsSaved-again,
}
use agent_workspace_guard.Broker.Perform.Staged.{IsStaged}

module _ (hmac : List ℕ → Text) (digest_of : FilePath → Files → Result Text)
    (resolve : FilePath → FilePath) (copy_entry : FilePath → FilePath → Result (Unit {0}))
    (copied : Files → Files) (state_root : FilePath) (job : Job) where
  Triple-save_commit :
      {pre post fail : World Held → Type 0} (status : Text)
      → Stable pre
      → Stable post
      → ((w : World Held) (signature : Text)
          → pre w
          → pre (record w { memory = record w.memory { signature = signature } }))
      → ((w : World Held) → pre w → post (record w { memory = set_status status w.memory }))
      → ((w : World Held) → pre w → fail w)
      → ((w : World Held) → post w → fail w)
      → Triple pre
          (save_commit hmac digest_of resolve copy_entry copied state_root job status)
          (λ u. post)
          fail
  unfolding save_commit
  Triple-save_commit {pre = pre} status before after signed step bad bad' =
      Triple->>= (λ u. pre) _ _
        (Triple-sign_with
          (λ w. sign hmac (
            commit_payload
              (record_of hmac digest_of resolve copy_entry copied state_root job status w.memory)))
          signed bad)
        (λ u. Triple-save (set_status status) before after step bad bad')

  -- The operations in hand are what the loop has left, and so are the files.
  record IsRun (w : World Held) : Type 0 where
    prepared : List CommitOperation
    before : Files
    faults : List Bool
    of_plan : (AreOfPlan hmac digest_of resolve copy_entry copied state_root job) prepared
    no_failure :
        (apply_operations job.workspace job.apply_root prepared before faults).failure ≡ none
    same_files :
        w.files ≡ (apply_operations job.workspace job.apply_root prepared before faults).files
    all :
        w.memory.operations
        ≡ (apply_operations job.workspace job.apply_root prepared before faults).operations

  apply_all-IsRun :
      Triple
        (IsStaged hmac digest_of resolve copy_entry copied state_root job)
        (apply_all hmac digest_of resolve copy_entry copied state_root job)
        (λ u w. IsFresh w × IsRun w)
        IsFresh
  unfolding apply_all Ends IsStaged
  apply_all-IsRun = record { ends = λ w p. follow w p _ refl }
    where
      follow :
          (w : World Held)
          → (IsStaged hmac digest_of resolve copy_entry copied state_root job) w
          → (failure : Option Error)
          → (apply_operations job.workspace job.apply_root w.memory.operations w.files
              w.faults).failure
            ≡ failure
          → Ends
              (λ u v. IsFresh v × IsRun v)
              IsFresh
              (
                ended failure,
                (after_loop
                    (apply_operations job.workspace job.apply_root w.memory.operations w.files
                      w.faults)
                    w).1,
              )
      follow w p none e = (
        record { plan = p.0.plan; transaction = p.0.transaction },
        record {
          prepared = w.memory.operations;
          before = w.files;
          faults = w.faults;
          of_plan = p.1;
          no_failure = e;
          same_files = refl;
          all = refl;
        },
      )
      follow w p (some raised) e = record { plan = p.0.plan; transaction = p.0.transaction }

  unfoldable IsScanned : World Held → Type 0
  IsScanned w =
      IsFresh w
      × (IsApplied hmac digest_of resolve copy_entry copied state_root job) w.memory.operations

  unfoldable IsFinished : World Held → Type 0
  IsFinished w =
      IsFresh w × (IsComplete hmac digest_of resolve copy_entry copied state_root job) w.memory

  run-IsApplied :
      (w : World Held)
      → digest_of job.workspace w.files ≡ ok job.plan.staged_digest
      → IsRun w
      → (IsApplied hmac digest_of resolve copy_entry copied state_root job) w.memory.operations
  run-IsApplied w e run = record {
    prepared = run.prepared;
    before = run.before;
    faults = run.faults;
    of_plan = run.of_plan;
    no_failure = run.no_failure;
    same_digest = ap (digest_of job.workspace) (sym run.same_files) ∙ e;
    all = run.all;
  }

  pub carry_out_saves :
      Triple
        (IsStaged hmac digest_of resolve copy_entry copied state_root job)
        (carry_out hmac digest_of resolve copy_entry copied state_root job)
        (λ u w. IsFresh w × (IsSaved hmac digest_of resolve copy_entry copied state_root job) w)
        IsFresh
  unfolding carry_out IsStaged IsScanned IsFinished Stable
  carry_out_saves =
      Triple->>= (λ u. (IsStaged hmac digest_of resolve copy_entry copied state_root job)) _ _
        (Triple-save_commit (codes "prepared") (λ w files faults p. (again refl refl p.0, p.1))
          (λ w files faults p. (again refl refl p.0, p.1))
          (λ w signature p. (again refl refl p.0, p.1)) (λ w p. (again refl refl p.0, p.1))
          (λ w p. p.0) (λ w p. p.0))
        (λ u.
          Triple->>= (λ u w. IsFresh w × IsRun w) _ _ apply_all-IsRun
            (λ u.
              Triple->>= (λ u. IsScanned) _ _
                (Triple-expect digest_of job.workspace job.plan.staged_digest integrity_error
                  (λ w e p. (p.0, run-IsApplied w e p.1)) (λ w p. p.0))
                (λ u.
                  Triple->>= (λ u. IsFinished) _ _
                    (Triple-remember complete_all (λ w p. (
                      again refl refl p.0,
                      record { applied = w.memory.operations; is_applied = p.1; completed = refl },
                    )))
                    (λ u.
                      Triple-save_commit (codes "committed")
                        (λ w files faults p. (again refl refl p.0, p.1))
                        (λ w files faults p. (
                          again refl refl p.0,
                          (IsSaved-again hmac digest_of resolve copy_entry copied state_root job)
                              refl p.1,
                        ))
                        (λ w signature p. (
                          again refl refl p.0,
                          (IsComplete-again hmac digest_of resolve copy_entry copied state_root job)
                              refl p.1,
                        ))
                        (λ w p. (
                          again refl refl p.0,
                          record {
                            status = refl;
                            complete =
                                (IsComplete-again hmac digest_of resolve copy_entry copied
                                    state_root job)
                                  refl p.1;
                          },
                        ))
                        (λ w p. p.0) (λ w p. p.0)))))
