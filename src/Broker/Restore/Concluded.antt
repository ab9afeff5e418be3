-- ===== src/Broker/Restore/Concluded.antt =====
-- What a restore has done when it ends, whether it returns or raises.
use agent_workspace_guard.Base.{
  ◌≡◌, refl, ℕ, Bool, true, false, not, some, List, Text, codes, eq_sound, list_eq, nat_eq, Result,
  ok, err, Error, guard_error, integrity_error, refuse,
}
use agent_workspace_guard.Paths.{FilePath}
use agent_workspace_guard.Json.Values.{Json}
use agent_workspace_guard.Json.Convert.{Builtins}
use agent_workspace_guard.Models.Enums.{committed, plan_state_eq}
use agent_workspace_guard.Models.CommitPlan.{CommitPlan}
use agent_workspace_guard.Models.CommitRecord.{CommitRecord}
use agent_workspace_guard.FileSystem.{Files, World}
use agent_workspace_guard.FileSystem.Triples.{Triple-given, Ends, Triple, Stable}
use agent_workspace_guard.Broker.Load.{load_commit, load_plan}
use agent_workspace_guard.Broker.Held.{Held}
use agent_workspace_guard.Broker.Restore.Whole.{matches_plan, with_status, restore_files, restore}
use agent_workspace_guard.Broker.Lock.Triples.{Triple-with_workspace_lock}
use agent_workspace_guard.Broker.Restore.TurnedBack.{
  IsOpen, IsRestored, Stopped, after_save, IsRestored-Stable, Stopped-Stable, restore_files_triple,
}

-- A restore whose checks have passed.
module _ (py : Builtins) (sha256 hmac : List ℕ → Text) (state_root : FilePath)
    (read_json : FilePath → Result Json) (digest_of : FilePath → Files → Result Text)
    (commit_id : Text) where
  -- The record says "committed", and so does its plan, to which it belongs.
  pub record IsRestorable (stored : CommitRecord) (plan : CommitPlan) : Type 0 where
    pub loaded : load_commit py sha256 hmac state_root read_json commit_id ≡ ok stored
    pub status : stored.status ≡ codes "committed"
    pub loaded_plan : load_plan py sha256 hmac state_root read_json stored.plan_id ≡ ok plan
    pub plan_state : plan.state ≡ committed
    pub matches : matches_plan stored plan ≡ true

  -- A restore that has returned.
  pub record IsUndone (returned : CommitRecord) (w : World Held) : Type 0 where
    pub stored : CommitRecord
    pub plan : CommitPlan
    pub restorable : IsRestorable stored plan
    pub restored : IsRestored hmac digest_of stored w
    pub same : returned ≡ with_status (codes "restored") stored w.memory

  -- A restore that has raised.
  pub data Raised (w : World Held) : Type 0 where
    refused : w.memory.commit_status ≡ some (codes "committed") → Raised w
    stopped :
        (stored : CommitRecord) (plan : CommitPlan)
        → IsRestorable stored plan
        → Stopped hmac digest_of stored w
        → Raised w

  raised-Stable : Stable Raised
  unfolding Stable
  raised-Stable w files faults (refused p) = refused p
  raised-Stable w files faults (stopped stored plan r p) =
      stopped stored plan r (Stopped-Stable hmac digest_of stored w files faults p)

  undone-Stable : (r : CommitRecord) → Stable (IsUndone r)
  unfolding Stable
  undone-Stable r w files faults u = record {
    stored = u.stored;
    plan = u.plan;
    restorable = u.restorable;
    restored = IsRestored-Stable hmac digest_of u.stored w files faults u.restored;
    same = u.same;
  }

  undone-Raised : (r : CommitRecord) (w : World Held) → IsUndone r w → Raised w
  undone-Raised r w u = stopped u.stored u.plan u.restorable (after_save u.restored)

  restored :
      (stored : CommitRecord) (plan : CommitPlan)
      → IsRestorable stored plan
      → Triple IsOpen (restore_files hmac digest_of stored) IsUndone Raised
  unfolding Ends
  restored stored plan r = record {
    ends = λ w p. follow _ ((restore_files_triple hmac digest_of stored).ends w p);
  }
    where
      follow :
          (x : Result CommitRecord × World Held)
          → Ends
              (λ r w.
                IsRestored hmac digest_of stored w
                × (r ≡ with_status (codes "restored") stored w.memory))
              (Stopped hmac digest_of stored)
              x
          → Ends IsUndone Raised x
      follow (ok a, v) h = record {
        stored = stored;
        plan = plan;
        restorable = r;
        restored = h.0;
        same = h.1;
      }
      follow (err e, v) h = stopped stored plan r h

  test_passed : (test : Bool) (e : Error) → refuse (not test) e ≡ ok tt → test ≡ true
  test_passed true e h = refl
  test_passed false e h = cc

  restore_triple :
      Triple IsOpen
        (restore py sha256 hmac state_root read_json digest_of commit_id)
        IsUndone
        Raised
  unfolding restore Stable
  restore_triple =
      Triple-given _ _
        (λ stored loaded.
          Triple-given _ _
            (λ u status.
              Triple-given _ _
                (λ plan loaded_plan.
                  Triple-given _ _
                    (λ u plan_state.
                      Triple-given _ _
                        (λ u matches.
                          let r : IsRestorable stored plan = record {
                            loaded = loaded;
                            status =
                                eq_sound stored.status (codes "committed")
                                  (test_passed _ guard_error status);
                            loaded_plan = loaded_plan;
                            plan_state =
                                eq_sound plan.state committed
                                  (test_passed _ integrity_error plan_state);
                            matches = test_passed _ integrity_error matches;
                          } in
                          Triple-given _ _
                            (λ lock_path placed.
                              Triple-with_workspace_lock lock_path _ (λ w files faults p. p)
                                undone-Stable raised-Stable (λ w. refused) undone-Raised
                                (restored stored plan r))
                            (λ w. refused))
                        (λ w. refused))
                    (λ w. refused))
                (λ w. refused))
            (λ w. refused))
        (λ w. refused)

  -- For any faults, of a commit whose saved record says "committed": a restore that returns has passed its
  -- checks, scans have found the digest of the commit before its loop and the digest of before the
  -- commit after it, and the record is saved as restored; a restore that raises before has left the
  -- saved record as it was.
  pub restore-IsUndone :
      (w : World Held)
      → w.memory.commit_status ≡ some (codes "committed")
      → Ends IsUndone Raised (restore py sha256 hmac state_root read_json digest_of commit_id w)
  restore-IsUndone w e = restore_triple.ends w e
