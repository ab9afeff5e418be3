-- ===== src/Broker/Lock/Released.antt =====
-- A block runs under its lock alone, and the lock is gone after it.
use agent_workspace_guard.Base.{
  ap, ◌∙◌, ◌≡◌, refl, Bool, true, false, Result, ok, err, guard_error, eq_refl, list_eq, nat_eq,
  if◌then◌else◌,
}
use agent_workspace_guard.Paths.{FilePath}
use agent_workspace_guard.FileSystem.{
  Files, lexists, next_fault, World, Action, continue, ◌>>◌, when, call, call_with, other_call,
}
use agent_workspace_guard.Broker.Lock.{
  created, unlinked, finally_do, concluded_by, release, with_workspace_lock,
}

created_here : (path : FilePath) (files : Files) → lexists path (created path files) ≡ true
unfolding created list_eq nat_eq
created_here path files = rw (lexists, eq_refl path)

unlinked_here : (path : FilePath) (files : Files) → lexists path (unlinked path files) ≡ false
unfolding unlinked list_eq nat_eq
unlinked_here path files = rw (lexists, eq_refl path)

module _ {M : Type 0} where
  -- The world at the start of the block, after the lock file has been made.
  abbrev pub entered : FilePath → World M → World M
  entered lock_path w = record w {
    files = created lock_path w.files;
    faults = (next_fault w.faults).1;
  }

  abbrev pub left : {A : Type 0} → Action M A → FilePath → World M → World M
  left body lock_path w = ((other_call >> body) (entered lock_path w)).1

  gone_after :
      {A : Type 0} (path : FilePath) (r : Result A) (last : Result (Unit {0}) × World M)
      → lexists path last.1.files ≡ false
      → lexists path (concluded_by r last).1.files ≡ false
  gone_after path r (ok u, w) h = h
  gone_after path r (err e, w) h = h

  gone_otherwise :
      {A : Type 0} (path : FilePath) (test : Bool) (first second : Result A × World M)
      → test ≡ false
      → lexists path second.1.files ≡ false
      → lexists path (if test then first else second).1.files ≡ false
  gone_otherwise path true first second e h = cc
  gone_otherwise path false first second e h = h

  first_of :
      {A : Type 0} (test : Bool) (first second : Result A × World M)
      → test ≡ true
      → (if test then first else second) ≡ first
  first_of true first second e = refl
  first_of false first second e = cc

  call_with-unlinked :
      (path : FilePath) (w : World M) (fault : Bool)
      → fault ≡ false
      → lexists path (call_with fault (unlinked path) w).1.files ≡ false
  call_with-unlinked path w true h = cc
  call_with-unlinked path w false h = unlinked_here path w.files

  release-gone :
      (path : FilePath) (w : World M)
      → (next_fault w.faults).0 ≡ false
      → lexists path (release path w).1.files ≡ false
  unfolding release call
  release-gone path w h = follow (lexists path w.files) refl
    where
      follow :
          (test : Bool)
          → lexists path w.files ≡ test
          → lexists path (when test (call (unlinked path)) w).1.files ≡ false
      follow true e = call_with-unlinked path _ (next_fault w.faults).0 h
      follow false e = e

  locked-gone :
      {A : Type 0} (body : Action M A) (path : FilePath) (w : World M) (fault : Bool)
      → (next_fault (left body path w).faults).0 ≡ false
      → lexists path w.files ≡ false
      → lexists path
          (continue
            (call_with fault (created path) (record w { faults = (next_fault w.faults).1 }))
            (λ u. finally_do (other_call >> body) (release path))).1.files
        ≡ false
  locked-gone body path w true h absent = absent
  locked-gone body path w false h absent =
      gone_after path ((other_call >> body) (entered path w)).0 (release path (left body path w))
        (release-gone path (left body path w) h)

  -- The world when the block has come as far as `before`.
  abbrev pub reached : Action M (Unit {0}) → FilePath → World M → World M
  reached before path w = left before path w

  other_call-files : (w : World M) → (other_call w).1.files ≡ w.files
  unfolding call
  other_call-files w = follow (next_fault w.faults).0
    where
      follow :
          (fault : Bool)
          → (call_with fault
              (λ files. files)
              (record w { faults = (next_fault w.faults).1 })).1.files
            ≡ w.files
      follow true = refl
      follow false = refl

  kept :
      (before : Action M (Unit {0})) (path : FilePath) (r : Result (Unit {0}) × World M)
      → ((v : World M) → lexists path v.files ≡ true → lexists path (before v).1.files ≡ true)
      → lexists path r.1.files ≡ true
      → lexists path (continue r (λ u. before)).1.files ≡ true
  kept before path (ok u, v) keeps h = keeps v h
  kept before path (err e, v) keeps h = h

  reached_locked :
      (before : Action M (Unit {0})) (path : FilePath) (w : World M)
      → ((v : World M) → lexists path v.files ≡ true → lexists path (before v).1.files ≡ true)
      → lexists path (reached before path w).files ≡ true
  reached_locked before path w keeps = kept before path (other_call (entered path w)) keeps (
      ap (λ files. lexists path files) (other_call-files (entered path w))
      ∙ created_here path w.files)

  -- Of a lock that is free, and a block whose first part does not remove its file: at the point that
  -- this part reaches, another block for the same workspace raises and touches nothing; and when the
  -- whole block has returned or raised, the lock is free again, unless the removal of its file raises.
  pub with_workspace_lock-released :
      {A B : Type 0} (path : FilePath) (before : Action M (Unit {0})) (rest : Action M A)
      (other : Action M B) (w : World M)
      → lexists path w.files ≡ false
      → ((v : World M) → lexists path v.files ≡ true → lexists path (before v).1.files ≡ true)
      → (next_fault (left (before >> rest) path w).faults).0 ≡ false
      → (with_workspace_lock path other (reached before path w)
          ≡ (err guard_error, reached before path w))
        × (lexists path (with_workspace_lock path (before >> rest) w).1.files ≡ false)
  unfolding with_workspace_lock call
  with_workspace_lock-released path before rest other w absent keeps h = (
    first_of (lexists path (reached before path w).files) _ _ (reached_locked before path w keeps),
    gone_otherwise path (lexists path w.files) _ _ absent
        (locked-gone (before >> rest) path w (next_fault w.faults).0 h absent),
  )
