-- ===== src/FileSystem/Triples.antt =====
-- What holds after a computation on the files, whether it returns or raises, and how that follows from
-- its parts.
use agent_workspace_guard.Base.{
  if◌then◌else◌, Error, ◌≡◌, refl, Bool, true, false, List, Result, ok, err,
}
use agent_workspace_guard.Paths.{FilePath, parent}
use agent_workspace_guard.FileSystem.{
  placed, grown, make_directory, make_directories, Files, World, Action, continue, ◌>>=◌, lift,
  remember, when, call, call_with, next_fault,
}

module _ {M : Type 0} where
  -- `post` of what is returned, or `fail` where something is raised.
  unfoldable pub Ends :
      {A : Type 0} → (A → World M → Type 0) → (World M → Type 0) → Result A × World M → Type 0
  Ends post fail (ok a, w) = post a w
  Ends post fail (err e, w) = fail w

  pub record Triple {A : Type 0} (pre : World M → Type 0) (action : Action M A)
      (post : A → World M → Type 0) (fail : World M → Type 0) : Type 0 where
    pub ends : (w : World M) → pre w → Ends post fail (action w)

  -- A predicate that a change of the files and of the faults does not touch.
  unfoldable pub Stable : (World M → Type 0) → Type 0
  Stable holds =
      (w : World M) (files : Files) (faults : List Bool)
      → holds w
      → holds (record w { files = files; faults = faults })

  pub Triple->>= :
      {A B : Type 0} {pre : World M → Type 0} {post : B → World M → Type 0}
      {fail : World M → Type 0} (mid : A → World M → Type 0) (m : Action M A)
      (rest : A → Action M B)
      → Triple pre m mid fail
      → ((a : A) → Triple (mid a) (rest a) post fail)
      → Triple pre (m >>= rest) post fail
  unfolding Ends
  Triple->>= {post = post} {fail = fail} mid m rest first second = record {
    ends = λ w p. follow (m w) (first.ends w p);
  }
    where
      follow : (r : Result _ × World M) → Ends mid fail r → Ends post fail (continue r rest)
      follow (ok a, v) h = (second a).ends v h
      follow (err e, v) h = h

  pub Triple-lift :
      {A : Type 0} {pre fail : World M → Type 0} {post : A → World M → Type 0} (r : Result A)
      → ((a : A) (w : World M) → r ≡ ok a → pre w → post a w)
      → ((w : World M) → pre w → fail w)
      → Triple pre (lift r) post fail
  unfolding Ends
  Triple-lift (ok a) good bad = record { ends = λ w p. good a w refl p }
  Triple-lift (err e) good bad = record { ends = λ w p. bad w p }

  pub Triple-remember :
      {pre fail : World M → Type 0} {post : Unit {0} → World M → Type 0} (change : M → M)
      → ((w : World M) → pre w → post tt (record w { memory = change w.memory }))
      → Triple pre (remember change) post fail
  unfolding Ends
  Triple-remember change good = record { ends = λ w p. good w p }

  pub Triple-call :
      {pre fail : World M → Type 0} (effect : Files → Files)
      → Stable pre
      → ((w : World M) → pre w → fail w)
      → Triple pre (call effect) (λ u. pre) fail
  unfolding Stable Ends call
  Triple-call {pre = pre} {fail = fail} effect stable bad = record {
    ends = λ w p. follow w p (next_fault w.faults).0;
  }
    where
      follow :
          (w : World M)
          → pre w
          → (fault : Bool)
          → Ends {A = Unit {0}}
              (λ u. pre)
              fail
              (call_with fault effect (record w { faults = (next_fault w.faults).1 }))
      follow w p true = bad _ (stable w w.files (next_fault w.faults).1 p)
      follow w p false = stable w (effect w.files) (next_fault w.faults).1 p

  pub Triple-when :
      {pre fail : World M → Type 0} (test : Bool) (action : Action M (Unit {0}))
      → Triple pre action (λ u. pre) fail
      → Triple pre (when test action) (λ u. pre) fail
  unfolding Ends
  Triple-when true action inner = record { ends = λ w p. inner.ends w p }
  Triple-when false action inner = record { ends = λ w p. p }

  -- A computation that first raises or goes on with a value.
  pub Triple-given :
      {A B : Type 0} {pre fail : World M → Type 0} {post : B → World M → Type 0} (r : Result A)
      (rest : A → Action M B)
      → ((a : A) → r ≡ ok a → Triple pre (rest a) post fail)
      → ((w : World M) → pre w → fail w)
      → Triple pre (lift r >>= rest) post fail
  unfolding Ends
  Triple-given (ok a) rest good bad = record { ends = λ w p. (good a refl).ends w p }
  Triple-given (err e) rest good bad = record { ends = λ w p. bad w p }

  -- One call that has an effect, or none.
  pub Triple-effect :
      {pre post fail : World M → Type 0} (effect : Files → Files)
      → ((w : World M) (faults : List Bool)
          → pre w
          → post (record w { files = effect w.files; faults = faults }))
      → ((w : World M) (faults : List Bool) → pre w → fail (record w { faults = faults }))
      → Triple pre (call effect) (λ u. post) fail
  unfolding Ends call
  Triple-effect {pre = pre} {post = post} {fail = fail} effect good bad = record {
    ends = λ w p. follow w p (next_fault w.faults).0;
  }
    where
      follow :
          (w : World M)
          → pre w
          → (fault : Bool)
          → Ends {A = Unit {0}}
              (λ u. post)
              fail
              (call_with fault effect (record w { faults = (next_fault w.faults).1 }))
      follow w p true = bad w (next_fault w.faults).1 p
      follow w p false = good w (next_fault w.faults).1 p

  pub Triple-unless :
      {pre fail : World M → Type 0} {post : Unit {0} → World M → Type 0} (test : World M → Bool)
      (e : Error) (action : Action M (Unit {0}))
      → Triple pre action post fail
      → ((w : World M) → pre w → fail w)
      → Triple pre (λ w. if test w then (err e, w) else action w) post fail
  unfolding Ends
  Triple-unless {pre = pre} {fail = fail} {post = post} test e action inner bad = record {
    ends = λ w p. follow w p (test w);
  }
    where
      follow :
          (w : World M) → pre w → (b : Bool) → Ends post fail (if b then (err e, w) else action w)
      follow w p true = bad w p
      follow w p false = inner.ends w p

  pub Triple-make_directory :
      {pre post fail : World M → Type 0} (folder : FilePath)
      → ((w : World M) (faults : List Bool)
          → pre w
          → post (record w { files = placed folder w.files; faults = faults }))
      → ((w : World M) (faults : List Bool) → pre w → fail (record w { faults = faults }))
      → Triple pre (make_directory folder) (λ u. post) fail
  unfolding make_directory
  Triple-make_directory folder good bad =
      Triple-unless _ _ _ (Triple-effect (placed folder) good bad) (λ w p. bad w w.faults p)

  pub Triple-make_directories :
      {pre post fail : World M → Type 0} (folder : FilePath)
      → ((w : World M) (faults : List Bool)
          → pre w
          → post
              (record w { files = placed folder (grown (parent folder) w.files); faults = faults }))
      → ((w : World M) (faults : List Bool) → pre w → fail (record w { faults = faults }))
      → Triple pre (make_directories folder) (λ u. post) fail
  unfolding make_directories
  Triple-make_directories folder good bad =
      Triple-unless _ _ _
        (Triple-effect (λ files. placed folder (grown (parent folder) files)) good bad)
        (λ w p. bad w w.faults p)

  pub Triple-weaken :
      {A : Type 0} {pre fail : World M → Type 0} {post : A → World M → Type 0}
      (strong : World M → Type 0) (action : Action M A)
      → ((w : World M) → strong w → pre w)
      → Triple pre action post fail
      → Triple strong action post fail
  Triple-weaken strong action holds inner = record { ends = λ w p. inner.ends w (holds w p) }
