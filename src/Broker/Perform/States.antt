-- ===== src/Broker/Perform/States.antt =====
-- How far the saves of a commit have come.
use agent_workspace_guard.Base.{
  ◌≡◌, refl, sym, ap, ◌∙◌, ℕ, Bool, none, some, List, map, Text, codes, list_eq, nat_eq, Result, ok,
}
use agent_workspace_guard.Paths.{FilePath}
use agent_workspace_guard.Models.Enums.{PlanState, TransactionState}
use agent_workspace_guard.Models.CommitOperation.{CommitOperation}
use agent_workspace_guard.Manifest.{operation_roots}
use agent_workspace_guard.FileSystem.{Files, World}
use agent_workspace_guard.FileSystem.Triples.{Stable}
use agent_workspace_guard.Broker.Prepare.{prepare_operations}
use agent_workspace_guard.Broker.Apply.{apply_operations}
use agent_workspace_guard.Broker.Held.{Held}
use agent_workspace_guard.Broker.Perform.{Job, complete}

-- The plan and the transaction are as they were before the commit.
pub record IsFresh (w : World Held) : Type 0 where
  pub plan : w.memory.plan_state ≡ PlanState.pending
  pub transaction : w.memory.transaction_state ≡ TransactionState.planned

pub again :
    {w v : World Held}
    → w.memory.plan_state ≡ v.memory.plan_state
    → w.memory.transaction_state ≡ v.memory.transaction_state
    → IsFresh w
    → IsFresh v
again e e' p = record { plan = sym e ∙ p.plan; transaction = sym e' ∙ p.transaction }

pub IsFresh-Stable : Stable IsFresh
unfolding Stable
IsFresh-Stable w files faults p = record { plan = p.plan; transaction = p.transaction }

module _ (hmac : List ℕ → Text) (digest_of : FilePath → Files → Result Text)
    (resolve : FilePath → FilePath) (copy_entry : FilePath → FilePath → Result (Unit {0}))
    (copied : Files → Files) (state_root : FilePath) (job : Job) where
  -- The operations of the plan.
  unfoldable pub AreOfPlan : List CommitOperation → Type 0
  unfolding prepare_operations operation_roots
  AreOfPlan operations =
      prepare_operations job.worktree job.apply_root job.quarantine_root copy_entry
        (operation_roots job.plan.changes)
      ≡ ok operations

  -- The loop has gone through the operations of the plan, leaving `operations`, and a scan after it has
  -- found the staged digest.
  pub record IsApplied (operations : List CommitOperation) : Type 0 where
    pub prepared : List CommitOperation
    pub before : Files
    pub faults : List Bool
    pub of_plan : AreOfPlan prepared
    pub no_failure :
        (apply_operations job.workspace job.apply_root prepared before faults).failure ≡ none
    pub same_digest :
        digest_of job.workspace
          (apply_operations job.workspace job.apply_root prepared before faults).files
        ≡ ok job.plan.staged_digest
    pub all :
        operations
        ≡ (apply_operations job.workspace job.apply_root prepared before faults).operations

  pub record IsComplete (held : Held) : Type 0 where
    pub applied : List CommitOperation
    pub is_applied : IsApplied applied
    pub completed : held.operations ≡ map complete applied

  -- The record is saved as committed, after the scan; so is the plan; so is the transaction.
  pub record IsSaved (w : World Held) : Type 0 where
    pub status : w.memory.commit_status ≡ some (codes "committed")
    pub complete : IsComplete w.memory

  pub record IsPlanSaved (w : World Held) : Type 0 where
    pub saved : IsSaved w
    pub plan : w.memory.plan_state ≡ PlanState.committed
    pub transaction : w.memory.transaction_state ≡ TransactionState.planned

  pub record IsAllSaved (w : World Held) : Type 0 where
    pub saved : IsSaved w
    pub plan : w.memory.plan_state ≡ PlanState.committed
    pub transaction : w.memory.transaction_state ≡ TransactionState.committed

  -- Where a commit that raises has stopped.
  pub data Stopped (w : World Held) : Type 0 where
    before_plan : IsFresh w → Stopped w
    after_plan : IsPlanSaved w → Stopped w
    after_transaction : IsAllSaved w → Stopped w

  pub IsComplete-again : {h k : Held} → h.operations ≡ k.operations → IsComplete h → IsComplete k
  IsComplete-again e p = record {
    applied = p.applied;
    is_applied = p.is_applied;
    completed = sym e ∙ p.completed;
  }

  pub IsSaved-again : {w v : World Held} → w.memory ≡ v.memory → IsSaved w → IsSaved v
  IsSaved-again e p = record {
    status = ap (λ m. m.commit_status) (sym e) ∙ p.status;
    complete = IsComplete-again (ap (λ m. m.operations) e) p.complete;
  }

  pub IsPlanSaved-again : {w v : World Held} → w.memory ≡ v.memory → IsPlanSaved w → IsPlanSaved v
  IsPlanSaved-again e p = record {
    saved = IsSaved-again e p.saved;
    plan = ap (λ m. m.plan_state) (sym e) ∙ p.plan;
    transaction = ap (λ m. m.transaction_state) (sym e) ∙ p.transaction;
  }

  pub IsAllSaved-again : {w v : World Held} → w.memory ≡ v.memory → IsAllSaved w → IsAllSaved v
  IsAllSaved-again e p = record {
    saved = IsSaved-again e p.saved;
    plan = ap (λ m. m.plan_state) (sym e) ∙ p.plan;
    transaction = ap (λ m. m.transaction_state) (sym e) ∙ p.transaction;
  }

  pub IsAllSaved-Stable : Stable IsAllSaved
  unfolding Stable
  IsAllSaved-Stable w files faults = IsAllSaved-again refl

  pub Stopped-Stable : Stable Stopped
  unfolding Stable
  Stopped-Stable w files faults (before_plan p) = before_plan (again refl refl p)
  Stopped-Stable w files faults (after_plan p) = after_plan (IsPlanSaved-again refl p)
  Stopped-Stable w files faults (after_transaction p) = after_transaction (IsAllSaved-again refl p)
