-- ===== src/Broker/Perform/Admitted.antt =====
-- A commit as a whole: what it has checked and what it has saved when it ends.
use agent_workspace_guard.Base.{◌≡◌, ℕ, List, Text, ℤ, Result, ok, err}
use agent_workspace_guard.Paths.{FilePath}
use agent_workspace_guard.Host.{CaseTables, Floats}
use agent_workspace_guard.Json.Values.{Json}
use agent_workspace_guard.Json.Convert.{Builtins}
use agent_workspace_guard.Models.CommitPlan.{CommitPlan}
use agent_workspace_guard.Models.Transaction.{Transaction}
use agent_workspace_guard.Models.TreeManifest.{TreeManifest}
use agent_workspace_guard.Models.CommitRecord.{CommitRecord}
use agent_workspace_guard.Policy.Config.{GuardPolicy}
use agent_workspace_guard.FileSystem.{Files, World}
use agent_workspace_guard.FileSystem.Triples.{Triple-given, Ends, Triple, Stable}
use agent_workspace_guard.Broker.Load.{load_baseline}
use agent_workspace_guard.Broker.Approval.{Approval}
use agent_workspace_guard.Broker.Commit.{View, authorize, check_result}
use agent_workspace_guard.Broker.Lock.Triples.{Triple-with_workspace_lock}
use agent_workspace_guard.Broker.Perform.{Job, perform}
use agent_workspace_guard.Broker.Held.{Held}
use agent_workspace_guard.Broker.Perform.Whole.{commit, job_of}
use agent_workspace_guard.Broker.Perform.States.{
  IsFresh-Stable, IsFresh, IsAllSaved, Stopped, after_transaction, IsAllSaved-Stable,
  Stopped-Stable,
}
use agent_workspace_guard.Broker.Perform.Ordered.{perform-Stopped}

module _ (py : Builtins) (sha256 hmac : List ℕ → Text) (state_root : FilePath)
    (read_json : FilePath → Result Json) (resolve : FilePath → FilePath) (cases : CaseTables)
    (floats : Floats) (policy : GuardPolicy floats) (digest_of : FilePath → Files → Result Text)
    (copy_entry : FilePath → FilePath → Result (Unit {0})) (copied : Files → Files) (view : View)
    (commit_id : Text) (created_at : ℤ) (plan_id : Text) (approval : Approval) where
  -- The changes have begun: the plan, its approval, its transaction, the baseline and the checks under
  -- the lock have been accepted.
  pub record IsAdmitted (plan : CommitPlan) (transaction : Transaction) (baseline : TreeManifest)
      : Type 0 where
    pub authorized :
        authorize py sha256 hmac state_root read_json view plan_id approval ≡ ok (plan, transaction)
    pub loaded : load_baseline py sha256 hmac state_root read_json resolve transaction ≡ ok baseline
    pub checked : check_result sha256 cases floats policy view plan transaction baseline ≡ ok tt

  abbrev pub job : CommitPlan → Transaction → TreeManifest → Job
  job =
      job_of py sha256 hmac state_root read_json resolve cases floats policy digest_of copy_entry
        copied commit_id created_at

  -- A commit that has returned.
  pub record IsCommitted (returned : CommitRecord) (w : World Held) : Type 0 where
    pub plan : CommitPlan
    pub transaction : Transaction
    pub baseline : TreeManifest
    pub admitted : IsAdmitted plan transaction baseline
    pub saved :
        IsAllSaved hmac digest_of resolve copy_entry copied state_root
          (job plan transaction baseline)
          w
    pub operations : returned.operations ≡ w.memory.operations

  -- A commit that has raised: before its changes, or on the way.
  pub data Raised (w : World Held) : Type 0 where
    refused : IsFresh w → Raised w
    stopped :
        (plan : CommitPlan) (transaction : Transaction) (baseline : TreeManifest)
        → IsAdmitted plan transaction baseline
        → Stopped hmac digest_of resolve copy_entry copied state_root
            (job plan transaction baseline)
            w
        → Raised w

  raised-Stable : Stable Raised
  unfolding Stable
  raised-Stable w files faults (refused p) =
      refused (record { plan = p.plan; transaction = p.transaction })
  raised-Stable w files faults (stopped plan transaction baseline a p) =
      stopped plan transaction baseline a (
        Stopped-Stable hmac digest_of resolve copy_entry copied state_root
          (job plan transaction baseline) w files faults p)

  committed-Stable : (r : CommitRecord) → Stable (IsCommitted r)
  unfolding Stable
  committed-Stable r w files faults c = record {
    plan = c.plan;
    transaction = c.transaction;
    baseline = c.baseline;
    admitted = c.admitted;
    saved =
        IsAllSaved-Stable hmac digest_of resolve copy_entry copied state_root
          (job c.plan c.transaction c.baseline) w files faults c.saved;
    operations = c.operations;
  }

  committed-Raised : (r : CommitRecord) (w : World Held) → IsCommitted r w → Raised w
  committed-Raised r w c =
      stopped c.plan c.transaction c.baseline c.admitted (after_transaction c.saved)

  performed :
      (plan : CommitPlan) (transaction : Transaction) (baseline : TreeManifest)
      → IsAdmitted plan transaction baseline
      → Triple IsFresh
          (perform hmac digest_of resolve copy_entry copied state_root
            (job plan transaction baseline))
          IsCommitted
          Raised
  unfolding Ends
  performed plan transaction baseline admitted = record {
    ends = λ w p. follow _ (
        (perform-Stopped hmac digest_of resolve copy_entry copied state_root
            (job plan transaction baseline)).ends
          w p);
  }
    where
      follow :
          (r : Result CommitRecord × World Held)
          → Ends
              (λ r w.
                IsAllSaved hmac digest_of resolve copy_entry copied state_root
                  (job plan transaction baseline)
                  w
                × (r.operations ≡ w.memory.operations))
              (Stopped hmac digest_of resolve copy_entry copied state_root
                (job plan transaction baseline))
              r
          → Ends IsCommitted Raised r
      follow (ok r, v) h = record {
        plan = plan;
        transaction = transaction;
        baseline = baseline;
        admitted = admitted;
        saved = h.0;
        operations = h.1;
      }
      follow (err e, v) h = stopped plan transaction baseline admitted h

  commit_triple :
      Triple IsFresh
        (commit py sha256 hmac state_root read_json resolve cases floats policy digest_of copy_entry
          copied view commit_id created_at plan_id approval)
        IsCommitted
        Raised
  unfolding commit
  commit_triple =
      Triple-given _ _
        (λ (plan, transaction) authorized.
          Triple-given _ _
            (λ baseline loaded.
              Triple-given _ _
                (λ lock_path placed.
                  Triple-with_workspace_lock lock_path _ IsFresh-Stable committed-Stable
                    raised-Stable (λ w. refused) committed-Raised
                    (Triple-given _ _
                      (λ u checked.
                        performed plan transaction baseline
                          (record { authorized = authorized; loaded = loaded; checked = checked }))
                      (λ w. refused)))
                (λ w. refused))
            (λ w. refused))
        (λ w. refused)

  -- For any faults, of a pending plan and a planned transaction: a commit that returns has passed its
  -- checks, its loop has applied the operations of the plan, a scan after it has found the digest of the
  -- plan, and its record, its plan and its transaction are saved as committed. A commit that raises has
  -- left the plan and the transaction as they were, or has done all of this up to the save of the plan.
  pub commit-IsCommitted :
      (w : World Held)
      → IsFresh w
      → Ends IsCommitted Raised (
          commit py sha256 hmac state_root read_json resolve cases floats policy digest_of
            copy_entry copied view commit_id created_at plan_id approval w)
  commit-IsCommitted w fresh = commit_triple.ends w fresh
