-- ===== src/Broker/Restore/TurnedBack.antt =====
-- The block of a restore under its lock.
use agent_workspace_guard.Base.{
  ◌≡◌, refl, sym, ap, ◌∙◌, ℕ, Bool, Option, none, some, List, Text, codes, list_eq, nat_eq, Result,
  ok, Error, integrity_error, stale_plan,
}
use agent_workspace_guard.Paths.{FilePath, parse}
use agent_workspace_guard.Models.Enums.{plan_state_eq}
use agent_workspace_guard.Models.CommitOperation.{CommitOperation}
use agent_workspace_guard.Models.CommitRecord.{CommitRecord}
use agent_workspace_guard.Signer.{sign}
use agent_workspace_guard.FileSystem.{Files, World}
use agent_workspace_guard.FileSystem.Triples.{
  Ends, Triple, Stable, Triple->>=, Triple-remember, Triple-call,
}
use agent_workspace_guard.Broker.Load.{commit_payload}
use agent_workspace_guard.Broker.Held.{Held, set_status, ended, after_loop}
use agent_workspace_guard.Broker.Held.Triples.{Triple-save, Triple-sign_with, Triple-expect}
use agent_workspace_guard.Broker.Restore.{restore_operations}
use agent_workspace_guard.Broker.Restore.Whole.{
  with_status, restored_new_root, restore_all, restore_files,
}

abbrev pub IsOpen : World Held → Type 0
IsOpen w = w.memory.commit_status ≡ some (codes "committed")

module _ (hmac : List ℕ → Text) (digest_of : FilePath → Files → Result Text)
    (stored : CommitRecord) where
  -- A scan has found the tree that the commit left; the loop has gone through the operations of the
  -- record; and a scan after it has found the tree from before the commit.
  pub record IsTurnedBack (operations : List CommitOperation) : Type 0 where
    pub before : Files
    pub faults : List Bool
    pub as_committed : digest_of (parse stored.workspace_root) before ≡ ok stored.after_digest
    pub no_failure :
        (restore_operations
          (parse stored.workspace_root)
          (restored_new_root hmac digest_of stored)
          stored.operations
          before
          faults).failure
        ≡ none
    pub as_before :
        digest_of
          (parse stored.workspace_root)
          (restore_operations
            (parse stored.workspace_root)
            (restored_new_root hmac digest_of stored)
            stored.operations
            before
            faults).files
        ≡ ok stored.before_digest
    pub all :
        operations
        ≡ (restore_operations
            (parse stored.workspace_root)
            (restored_new_root hmac digest_of stored)
            stored.operations
            before
            faults).operations

  -- The record is saved as restored.
  pub record IsRestored (w : World Held) : Type 0 where
    pub status : w.memory.commit_status ≡ some (codes "restored")
    pub turned_back : IsTurnedBack w.memory.operations

  -- Where a restore that raises has stopped: the saved record says "committed", or all is done.
  pub data Stopped (w : World Held) : Type 0 where
    before_save : w.memory.commit_status ≡ some (codes "committed") → Stopped w
    after_save : IsRestored w → Stopped w

  unfoldable IsLoaded : World Held → Type 0
  IsLoaded w = IsOpen w × (digest_of (parse stored.workspace_root) w.files ≡ ok stored.after_digest)

  record IsRun (w : World Held) : Type 0 where
    is_open : IsOpen w
    before : Files
    faults : List Bool
    as_committed : digest_of (parse stored.workspace_root) before ≡ ok stored.after_digest
    no_failure :
        (restore_operations
          (parse stored.workspace_root)
          (restored_new_root hmac digest_of stored)
          stored.operations
          before
          faults).failure
        ≡ none
    same_files :
        w.files
        ≡ (restore_operations
            (parse stored.workspace_root)
            (restored_new_root hmac digest_of stored)
            stored.operations
            before
            faults).files
    all :
        w.memory.operations
        ≡ (restore_operations
            (parse stored.workspace_root)
            (restored_new_root hmac digest_of stored)
            stored.operations
            before
            faults).operations

  unfoldable IsReady : World Held → Type 0
  IsReady w = IsLoaded w × (w.memory.operations ≡ stored.operations)

  unfoldable IsBack : World Held → Type 0
  IsBack w = IsOpen w × IsTurnedBack w.memory.operations

  restore_all-IsRun : Triple IsReady (restore_all hmac digest_of stored) (λ u. IsRun) Stopped
  unfolding restore_all Ends IsReady IsLoaded
  restore_all-IsRun = record { ends = λ w p. follow w p w.memory.operations p.1 refl _ refl }
    where
      follow :
          (w : World Held)
          → IsReady w
          → (operations : List CommitOperation) → operations ≡ stored.operations
          → w.memory.operations ≡ operations
          → (failure : Option Error)
          → (restore_operations
              (parse stored.workspace_root)
              (restored_new_root hmac digest_of stored)
              w.memory.operations
              w.files
              w.faults).failure
            ≡ failure
          → Ends
              (λ u. IsRun)
              Stopped
              (
                ended failure,
                (after_loop
                    (restore_operations
                      (parse stored.workspace_root)
                      (restored_new_root hmac digest_of stored)
                      w.memory.operations
                      w.files
                      w.faults)
                    w).1,
              )
      follow w p operations e e' none f = record {
        is_open = p.0.0;
        before = w.files;
        faults = w.faults;
        as_committed = p.0.1;
        no_failure =
            ap
              (λ o.
                (restore_operations (parse stored.workspace_root)
                  (restored_new_root hmac digest_of stored) o w.files w.faults).failure)
              (sym p.1)
            ∙ f;
        same_files =
            ap
              (λ o.
                (restore_operations (parse stored.workspace_root)
                  (restored_new_root hmac digest_of stored) o w.files w.faults).files)
              p.1;
        all =
            ap
              (λ o.
                (restore_operations (parse stored.workspace_root)
                  (restored_new_root hmac digest_of stored) o w.files w.faults).operations)
              p.1;
      }
      follow w p operations e e' (some raised) f = before_save p.0.0

  back :
      (w : World Held)
      → digest_of (parse stored.workspace_root) w.files ≡ ok stored.before_digest
      → IsRun w
      → IsBack w
  unfolding IsBack
  back w e run = (
    run.is_open,
    record {
      before = run.before;
      faults = run.faults;
      as_committed = run.as_committed;
      no_failure = run.no_failure;
      as_before = ap (digest_of (parse stored.workspace_root)) (sym run.same_files) ∙ e;
      all = run.all;
    },
  )

  turned_again : {o o' : List CommitOperation} → o ≡ o' → IsTurnedBack o → IsTurnedBack o'
  turned_again e t = record {
    before = t.before;
    faults = t.faults;
    as_committed = t.as_committed;
    no_failure = t.no_failure;
    as_before = t.as_before;
    all = sym e ∙ t.all;
  }

  pub IsRestored-Stable : Stable IsRestored
  unfolding Stable
  IsRestored-Stable w files faults p = record {
    status = p.status;
    turned_back = turned_again refl p.turned_back;
  }

  hand_back :
      Triple IsRestored
        (λ w. (ok (with_status (codes "restored") stored w.memory), w))
        (λ r w. IsRestored w × (r ≡ with_status (codes "restored") stored w.memory))
        Stopped
  unfolding Ends
  hand_back = record { ends = λ w p. (p, refl) }

  pub Stopped-Stable : Stable Stopped
  unfolding Stable
  Stopped-Stable w files faults (before_save p) = before_save p
  Stopped-Stable w files faults (after_save p) = after_save (IsRestored-Stable w files faults p)

  pub restore_files_triple :
      Triple IsOpen
        (restore_files hmac digest_of stored)
        (λ r w. IsRestored w × (r ≡ with_status (codes "restored") stored w.memory))
        Stopped
  unfolding restore_files Stable IsReady IsLoaded IsBack
  restore_files_triple =
      Triple->>= (λ u. IsLoaded) _ _
        (Triple-expect digest_of (parse stored.workspace_root) stored.after_digest stale_plan
          (λ w e p. (p, e)) (λ w. before_save))
        (λ u.
          Triple->>= (λ u. IsReady) _ _
            (Triple-remember (λ held. record held { operations = stored.operations })
              (λ w p. (p, refl)))
            (λ u.
              Triple->>= (λ u. IsRun) _ _ restore_all-IsRun
                (λ u.
                  Triple->>= (λ u. IsBack) _ _
                    (Triple-expect digest_of (parse stored.workspace_root) stored.before_digest
                      integrity_error back (λ w p. before_save p.is_open))
                    (λ u.
                      Triple->>= (λ u. IsBack) _ _
                        (Triple-sign_with
                          (λ w.
                            sign hmac
                              (commit_payload (with_status (codes "restored") stored w.memory)))
                          (λ w s p. (p.0, turned_again refl p.1)) (λ w p. before_save p.0))
                        (λ u.
                          Triple->>= (λ u. IsRestored) _ _
                            (Triple-save (set_status (codes "restored")) (λ w files faults p. p)
                              IsRestored-Stable
                              (λ w p. record { status = refl; turned_back = turned_again refl p.1 })
                              (λ w p. before_save p.0) (λ w. after_save))
                            (λ u.
                              Triple->>= (λ u. IsRestored) _ _
                                (Triple-call (λ files. files) IsRestored-Stable (λ w. after_save))
                                (λ u. hand_back)))))))
