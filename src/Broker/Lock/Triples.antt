-- ===== src/Broker/Lock/Triples.antt =====
-- How a block under a lock ends.
use agent_workspace_guard.Base.{
  if◌then◌else◌, guard_error, Bool, true, false, Result, ok, err, Error,
}
use agent_workspace_guard.Paths.{FilePath}
use agent_workspace_guard.FileSystem.{World, Action, ◌>>◌, lexists, other_call, call}
use agent_workspace_guard.FileSystem.Triples.{
  Ends, Triple, Stable, Triple->>=, Triple-call, Triple-when,
}
use agent_workspace_guard.Broker.Lock.{
  with_workspace_lock, release, finally_do, concluded_by, created, unlinked,
}

module _ {M : Type 0} {pre : World M → Type 0} (fail : World M → Type 0) where
  Triple-release :
      (lock_path : FilePath)
      → Stable pre
      → ((w : World M) → pre w → fail w)
      → Triple pre (release lock_path) (λ u. pre) fail
  unfolding release
  Triple-release lock_path stable bad = record {
    ends = λ w p.
        (Triple-when (lexists lock_path w.files) _
            (Triple-call {fail = fail} (unlinked lock_path) stable bad)).ends
          w p;
  }

module _ {M : Type 0} {A : Type 0} {pre : World M → Type 0} {post : A → World M → Type 0}
    {fail : World M → Type 0} where
  Triple-finally :
      (body : Action M A) (last : Action M (Unit {0}))
      → Triple pre body post fail
      → ((a : A) → Triple (post a) last (λ u. post a) fail)
      → Triple fail last (λ u. fail) fail
      → Triple pre (finally_do body last) post fail
  unfolding Ends
  Triple-finally body last inner after after' = record {
    ends = λ w p. follow (body w).0 (body w).1 (inner.ends w p);
  }
    where
      returned :
          (a : A) (r : Result (Unit {0}) × World M)
          → Ends (λ u. post a) fail r
          → Ends post fail (concluded_by (ok a) r)
      returned a (ok u, v) h = h
      returned a (err e, v) h = h

      raised :
          (e : Error) (r : Result (Unit {0}) × World M)
          → Ends (λ u. fail) fail r
          → Ends post fail (concluded_by (err e) r)
      raised e (ok u, v) h = h
      raised e (err e', v) h = h

      follow :
          (r : Result A) (v : World M)
          → Ends post fail (r, v)
          → Ends post fail (concluded_by r (last v))
      follow (ok a) v h = returned a (last v) ((after a).ends v h)
      follow (err e) v h = raised e (last v) (after'.ends v h)

  pub Triple-with_workspace_lock :
      (lock_path : FilePath) (body : Action M A)
      → Stable pre
      → ((a : A) → Stable (post a))
      → Stable fail
      → ((w : World M) → pre w → fail w)
      → ((a : A) (w : World M) → post a w → fail w)
      → Triple pre body post fail
      → Triple pre (with_workspace_lock lock_path body) post fail
  unfolding with_workspace_lock Ends
  Triple-with_workspace_lock lock_path body s s' s'' bad bad' inner = record {
    ends = λ w p. follow (lexists lock_path w.files) w p;
  }
    where
      locked :
          Triple pre
            (call (created lock_path) >> finally_do (other_call >> body) (release lock_path))
            post
            fail
      locked =
          Triple->>= (λ u. pre) _ _ (Triple-call (created lock_path) s bad)
            (λ u.
              Triple-finally _ _
                (Triple->>= (λ u. pre) _ _ (Triple-call (λ files. files) s bad) (λ u. inner))
                (λ a. Triple-release fail lock_path (s' a) (bad' a))
                (Triple-release fail lock_path s'' (λ w p. p)))

      follow :
          (test : Bool) (w : World M)
          → pre w
          → Ends post fail (
              if test
              then (err guard_error, w)
              else (call (created lock_path) >> finally_do (other_call >> body) (release lock_path))
                  w)
      follow true w p = bad w p
      follow false w p = locked.ends w p
