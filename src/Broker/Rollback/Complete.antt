-- ===== src/Broker/Rollback/Complete.antt =====
-- A rollback that returns has gone all the way back.
use agent_workspace_guard.Base.{
  ◌≡◌, refl, Bool, Option, none, some, List, [], ◌∷◌, ◌++◌, Text, codes, Result, ok, err, Error,
  ◌==◌, eq_sound, list_eq, nat_eq, arith, refuse-eq-ok, >>=-eq-ok, Bool-cases, inl, inr, ap, subst,
}
use agent_workspace_guard.Paths.{FilePath}
use agent_workspace_guard.Models.CommitOperation.{CommitOperation}
use agent_workspace_guard.FileSystem.{Files, next_fault}
use agent_workspace_guard.Broker.Rollback.{Rollback, roll_back_operations}
use agent_workspace_guard.Broker.Rollback.Undone.{AreUndone, roll_back_operations-AreUndone}
use agent_workspace_guard.Broker.Rollback.Conclude.{
  status_of, check_restored, raise_if_any, conclude, concluded, rollback_failed_commit,
}

-- Every operation is undone, and a scan after that finds the tree of before the commit.
pub record IsComplete (digest_of : Files → Result Text) (baseline_digest : Text)
    (workspace aside_root : FilePath) (operations : List CommitOperation) (files : Files)
    (r : Rollback) : Type 0 where
  pub all_undone : AreUndone workspace aside_root operations files r.files
  pub same_digest : digest_of r.files ≡ ok baseline_digest

nothing_raised : (errors : List Text) → raise_if_any errors ≡ ok tt → errors ≡ []
nothing_raised [] h = refl
nothing_raised (error ∷ errors) h = cc

check_restored-same :
    (found : Result Text) (baseline_digest : Text) (errors : List Text)
    → check_restored found baseline_digest errors ≡ ok []
    → (errors ≡ []) × (found ≡ ok baseline_digest)
unfolding check_restored
check_restored-same (ok digest) baseline_digest [] h =
    elim (Bool-cases (digest == baseline_digest)) [
      | inl same ↦ (refl, ap ok (eq_sound digest baseline_digest same))
      | inr other ↦ absurd (ground arith)
    ]
check_restored-same (err e) baseline_digest [] h = cc
check_restored-same found baseline_digest (error ∷ errors) h = cc

conclude-same :
    (digest_of : Files → Result Text) (baseline_digest : Text) (r : Rollback)
    → conclude digest_of baseline_digest r ≡ ok tt
    → (r.errors ≡ []) × (digest_of r.files ≡ ok baseline_digest)
unfolding conclude
conclude-same digest_of baseline_digest r h =
    let (f1, h1) = refuse-eq-ok (next_fault r.faults).0 _ _ h in
    let (errors, checked, h2) =
      >>=-eq-ok (check_restored (digest_of r.files) baseline_digest r.errors) _ h1 in
    let (f2, h3) = refuse-eq-ok (next_fault (next_fault r.faults).1).0 _ _ h2 in
    check_restored-same (digest_of r.files) baseline_digest r.errors (
      subst (λ x. check_restored (digest_of r.files) baseline_digest r.errors ≡ ok x)
        (nothing_raised errors h3) checked)

concluded-none :
    (failure : Option Error) (conclusion : Result (Unit {0}))
    → concluded failure conclusion ≡ ok tt
    → (failure ≡ none) × (conclusion ≡ ok tt)
concluded-none none conclusion h = (refl, h)
concluded-none (some e) conclusion h = cc

-- For any faults: when a rollback returns, each operation is undone, the last one first: what it
-- installed is moved aside if it is still there, and then its backup, if it was moved and lies at its
-- place, lies at the target again. The files are those that this leaves, a scan of them finds the digest
-- of before, and the record says "rolled_back".
pub rollback_failed_commit-IsComplete :
    (digest_of : Files → Result Text) (workspace quarantine_root : FilePath)
    (baseline_digest : Text) (operations : List CommitOperation) (files : Files)
    (faults : List Bool)
    → (rollback_failed_commit digest_of workspace quarantine_root baseline_digest operations files
        faults).1
      ≡ ok tt
    → IsComplete digest_of baseline_digest workspace
        (quarantine_root ++ (codes "_failed_new" ∷ []))
        operations
        files
        (rollback_failed_commit digest_of workspace quarantine_root baseline_digest operations files
          faults).2
      × ((rollback_failed_commit digest_of workspace quarantine_root baseline_digest operations
            files faults).0
          ≡ codes "rolled_back")
unfolding rollback_failed_commit
rollback_failed_commit-IsComplete digest_of workspace quarantine_root baseline_digest operations
      files faults h =
    let aside_root = quarantine_root ++ (codes "_failed_new" ∷ []) in
    let r = roll_back_operations workspace aside_root operations files faults in
    let (failure, done) = concluded-none r.failure _ h in
    let (errors, digest) = conclude-same digest_of baseline_digest r done in
    (
      record {
        all_undone =
            roll_back_operations-AreUndone workspace aside_root operations files faults failure
              errors;
        same_digest = digest;
      },
      ap status_of errors,
    )
